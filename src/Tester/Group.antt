-- ===== src/Tester/Group.antt =====
-- tester1/group.go and srv.go: the servers of a group, the ends that they have to each other, and which
-- of them are enabled. `none` is a panic (an index out of range) or fatal (an end's name that is taken).
-- `rand i j` is the random name of the end from server `i` to server `j`. The daemons that run the
-- servers, their persisters, and the lists of client ends and of server names, which follow from the names
-- of the ends and from `server_name`, are left out.
pub mod View
pub mod Split
pub mod Dealing
pub mod Minority
pub mod Made
pub mod Fresh
pub mod Joined
use linearizable_kv_store.Prelude.{
  ℕ, zero, suc, ◌+◌, Bool, true, false, Option, none, some, List, [], ◌∷◌, ◌++◌, String, length,
  get_elem?, ◌/◌, ◌-◌, ◌%◌, ◌==◌, ltb, if◌then◌else◌,
}
use Prim.Native.String.{◌++◌ as append, slice}
use linearizable_kv_store.Prelude.Panic.{◌>>=◌, each, assign}
use linearizable_kv_store.Labrpc.{Network, make_end, enable, connect as labrpc_connect}

-- `none` is nil.
pub record Server : Type 0 where
  pub end_names : Option (List String)

pub record ServerGrp : Type 0 where
  pub net : Network
  pub srvs : List Server
  pub connected : List Bool

unfoldable pub names : Server → List String
names s = elim s.end_names [ none ↦ [] | some l ↦ l ]

-- srvs[i].endNames[j]
unfoldable pub end_name : List Server → ℕ → ℕ → Option String
unfolding names
end_name srvs i j = get_elem? srvs i >>= λ s. get_elem? (names s) j

-- net.Enable(endname, b), once the name is there.
abbrev pub enable_at : Option String → Bool → Network → Option Network
enable_at endname b net = endname >>= λ name. some (enable name b net)

-- One round of the loop of Server.connect.
unfoldable pub enable_out : List Bool → Server → ℕ → Network → Option Network
unfolding names
enable_out connected s j net = get_elem? connected j >>= λ up. elim up [
  | true ↦ enable_at (get_elem? (names s) j) true net
  | false ↦ some net
]

-- Server.connect
unfoldable pub connect_out : List Bool → Server → List ℕ → Network → Option Network
unfolding enable_out
connect_out connected s to net = each (enable_out connected s) to net

-- Server.disconnect
unfoldable pub disconnect_out : Server → List ℕ → Network → Option Network
disconnect_out s from net = elim s.end_names [
  | none ↦ some net
  | some l ↦ each (λ j net. enable_at (get_elem? l j) false net) from net
]

-- The end of server `j` to server `i`, in ServerGrp.connect.
unfoldable pub enable_in : List Bool → List Server → ℕ → ℕ → Network → Option Network
unfolding end_name
enable_in connected srvs i j net = get_elem? connected j >>= λ up. elim up [
  | true ↦ enable_at (end_name srvs j i) true net
  | false ↦ some net
]

-- The same in ServerGrp.disconnect.
unfoldable pub disable_in : List Server → ℕ → ℕ → Network → Option Network
disable_in srvs i j net = get_elem? srvs j >>= λ s. elim s.end_names [
  | none ↦ some net
  | some l ↦ enable_at (get_elem? l i) false net
]

unfoldable pub connect : ℕ → List ℕ → ServerGrp → Option ServerGrp
unfolding connect_out enable_in
connect i to sg = assign sg.connected i true >>= λ connected. get_elem? sg.srvs i >>= λ s.
    connect_out connected s to sg.net >>= λ out.
    each (enable_in connected sg.srvs i) to out >>= λ net.
    some (record sg { net = net; connected = connected })

unfoldable pub disconnect : ℕ → List ℕ → ServerGrp → Option ServerGrp
unfolding disconnect_out disable_in
disconnect i from sg = assign sg.connected i false >>= λ connected. get_elem? sg.srvs i >>= λ s.
    disconnect_out s from sg.net >>= λ out. each (disable_in sg.srvs i) from out >>= λ net.
    some (record sg { net = net; connected = connected })

abbrev pub range : ℕ → List ℕ
range zero = []
range (suc n) = range n ++ n ∷ []

unfoldable pub all : ServerGrp → List ℕ
all sg = range (length sg.srvs)

unfoldable pub connect_one : ℕ → ServerGrp → Option ServerGrp
unfolding connect all
connect_one i sg = connect i (all sg) sg

unfoldable pub connect_all : ServerGrp → Option ServerGrp
unfolding connect_one all
connect_all sg = each connect_one (all sg) sg

unfoldable pub disconnect_all : ℕ → ServerGrp → Option ServerGrp
unfolding disconnect all
disconnect_all i sg = disconnect i (all sg) sg

-- One of the two loops of Partition.
unfoldable pub side : List ℕ → List ℕ → List ℕ → ServerGrp → Option ServerGrp
unfolding connect disconnect
side own other srvs sg = each (λ i sg. disconnect i other sg >>= connect i own) srvs sg

unfoldable pub partition : List ℕ → List ℕ → ServerGrp → Option ServerGrp
unfolding side
partition p1 p2 sg = side p1 p2 p1 sg >>= side p2 p1 p2

abbrev digit : ℕ → String
digit n = slice "0123456789" n (n + 1)

-- strconv.Itoa: a number has fewer digits than the fuel.
abbrev itoa_within : ℕ → ℕ → String
itoa_within zero n = ""
itoa_within (suc fuel) n =
    let front = itoa_within fuel (n / 10) in
    if ltb n 10 then digit n else append front (digit (n % 10))

unfoldable pub server_name : ℕ → ℕ → String
server_name gid i =
    append "server-" (append (itoa_within (gid + 1) gid) (append "-" (itoa_within (i + 1) i)))

-- The loop of makeServer: `name j` is the random name of the end to server `j`.
unfoldable pub make_ends : (ℕ → String) → ℕ → ℕ → Network → Option (List String × Network)
make_ends name gid zero net = some ([], net)
make_ends name gid (suc j) net = make_ends name gid j net >>= λ (l, net).
    make_end (name j) net >>= λ (net, _).
    some (l ++ name j ∷ [], labrpc_connect (name j) (server_name gid j) net)

unfoldable pub make_server : (ℕ → String) → ℕ → ℕ → Network → Option (Server × Network)
make_server name gid nsrv net =
    make_ends name gid nsrv net >>= λ (l, net). some (record { end_names = some l }, net)

-- The first loop of makeSrvGrp.
unfoldable pub make_servers :
    (ℕ → ℕ → String) → ℕ → ℕ → ℕ → Network → Option (List Server × Network)
unfolding make_server
make_servers rand gid n zero net = some ([], net)
make_servers rand gid n (suc i) net = make_servers rand gid n i net >>= λ (srvs, net).
    make_server (rand i) gid n net >>= λ (s, net). some (srvs ++ s ∷ [], net)

abbrev pub replicate : {A : Type 0} → ℕ → A → List A
replicate zero a = []
replicate (suc n) a = a ∷ replicate n a

unfoldable pub make_srv_grp : (ℕ → ℕ → String) → ℕ → ℕ → Network → Option ServerGrp
make_srv_grp rand gid n net = make_servers rand gid n n net >>= λ (srvs, net).
    some (record { net = net; srvs = srvs; connected = replicate n false })

-- MakePartition: the two slices, and how many servers have been dealt out.
pub record Halves : Type 0 where
  pub p1 : List ℕ
  pub p2 : List ℕ
  pub j : ℕ

unfoldable pub deal : ℕ → ℕ → Halves → Option Halves
deal l i h =
    if i == l
    then some h
    else if ltb h.j (length h.p1)
    then (assign h.p1 h.j i >>= λ p1. some (record h { p1 = p1; j = h.j + 1 }))
    else (assign h.p2 (h.j - length h.p1) i >>= λ p2. some (record h { p2 = p2; j = h.j + 1 }))

-- `p2[-1]` is out of range as well.
unfoldable pub last_is : ℕ → List ℕ → Option (List ℕ)
last_is l [] = none
last_is l (x ∷ xs) = assign (x ∷ xs) (length xs) l

unfoldable pub make_partition : ℕ → ℕ → Option (List ℕ × List ℕ)
unfolding deal last_is
make_partition n l =
    each (deal l) (range n)
      (record { p1 = replicate (n / 2 + 1) 0; p2 = replicate (n / 2) 0; j = 0 })
    >>= λ h. last_is l h.p2 >>= λ p2. some (h.p1, p2)
