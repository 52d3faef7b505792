-- ===== src/Tester/Clnt.antt =====
-- tester1/clnts.go: the ends of a clerk. An end is its name, since its channels are those of the network.
-- `none` is fatal: an end's name that is taken, or an end that is not there.
pub mod Allowed
pub mod Calling
use text.Mathlib.Text.{◌==◌ as str_eq}
use linearizable_kv_store.Prelude.{
  Bool, true, false, ◌||◌, Option, none, some, List, [], ◌∷◌, ◌++◌, String, if◌then◌else◌,
}
use linearizable_kv_store.Prelude.Panic.{◌>>=◌, each}
use linearizable_kv_store.Labrpc.{Network, make_end as labrpc_make_end, delete_end, connect, enable}

-- `ends` is in the order of an iteration. `srvs` is `none` for nil, which is all servers.
pub record Clnt : Type 0 where
  pub ends : List (String × String)
  pub srvs : Option (List String)

unfoldable pub make_clnt_to : Option (List String) → Clnt
make_clnt_to srvs = record { ends = []; srvs = srvs }

abbrev pub among : String → List String → Bool
among server [] = false
among server (n ∷ srvs) = str_eq n server || among server srvs

unfoldable pub allowed : Option (List String) → String → Bool
allowed none server = true
allowed (some srvs) server = among server srvs

-- clnt.ends[server]
abbrev pub find : String → List (String × String) → Option String
find server [] = none
find server ((s, name) ∷ ends) = if str_eq s server then some name else find server ends

abbrev pub make_end_at :
    Option String → String → String → Clnt → Network → Option (Clnt × Network × String)
unfolding allowed
make_end_at (some name) fresh server clnt net = some (clnt, net, name)
make_end_at none fresh server clnt net = labrpc_make_end fresh net >>= λ (made, _). some (
  record clnt { ends = clnt.ends ++ (server, fresh) ∷ [] },
  enable fresh (allowed clnt.srvs server) (connect fresh server made),
  fresh,
)

-- Clnt.makeEnd; `fresh` is the random name of an end that is new.
unfoldable pub make_end : String → String → Clnt → Network → Option (Clnt × Network × String)
unfolding make_end_at
make_end fresh server clnt net = make_end_at (find server clnt.ends) fresh server clnt net

-- for srv, e := range clnt.ends
abbrev pub each_end :
    (String → String → Network → Network) → List (String × String) → Network → Network
each_end f [] net = net
each_end f ((s, name) ∷ ends) net = each_end f ends (f s name net)

unfoldable pub connect_all : Clnt → Network → Clnt × Network
connect_all clnt net =
    (record clnt { srvs = none }, each_end (λ s name. enable name true) clnt.ends net)

unfoldable pub connect_to : List String → Clnt → Network → Clnt × Network
unfolding allowed
connect_to srvs clnt net = (
  record clnt { srvs = some srvs },
  each_end (λ s name net. if allowed (some srvs) s then enable name true net else net) clnt.ends
      net,
)

unfoldable pub disconnect : String → Clnt → Network → Network
disconnect srv clnt net =
    each_end (λ s name net. if str_eq s srv then enable name false net else net) clnt.ends net

unfoldable pub disconnect_all : Clnt → Network → Clnt × Network
disconnect_all clnt net =
    (record clnt { srvs = some [] }, each_end (λ s name. enable name false) clnt.ends net)

unfoldable pub remove : Clnt → Network → Option Network
remove clnt net = each (λ (s, name). delete_end name) clnt.ends net
