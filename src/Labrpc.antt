-- ===== src/Labrpc.antt =====
-- labrpc/labrpc.go: the state of the simulated network and its configuration. The names of ends and
-- servers are texts; a pointer to a server is a number, and nil, like a missing key, is `none`. Each
-- operation runs under `rn.mu`, so it is one step. `none` as a result is log.Fatalf or a panic.
pub mod Server
pub mod Process
pub mod Setup
pub mod Apart
pub mod Call
mod Tests
use linearizable_kv_store.Prelude.{
  ℕ, ◌+◌, ◌%◌, ◌^◌, Bool, true, false, not, ◌||◌, Option, none, some, List, [], ◌∷◌, String, ◌==◌,
  if◌then◌else◌, length,
}
use linearizable_kv_store.Prelude.Dict.{Dict, empty, insert, erase}

pub record ReqMsg : Type 0 where
  pub endname : String
  pub svc_meth : String
  pub args : List ℕ

pub record ReplyMsg : Type 0 where
  pub ok : Bool
  pub reply : List ℕ

abbrev pub no_reply : ReplyMsg
no_reply = record { ok = false; reply = [] }

-- The channels of an end are those of its network.
pub record ClientEnd : Type 0 where
  pub endname : String

-- `closed` is the closing of `done`. A connection or a server may be there with the value nil. The
-- counts are an int32 and an int64, as bit patterns.
pub record Network : Type 0 where
  pub reliable : Bool
  pub long_delays : Bool
  pub long_reordering : Bool
  pub ends : Dict ClientEnd
  pub enabled : Dict Bool
  pub servers : Dict (Option ℕ)
  pub connections : Dict (Option String)
  pub closed : Bool
  pub count : ℕ
  pub bytes : ℕ

-- m[k] of a map of pointers or interfaces.
abbrev pub or_nil {ℓ} : {A : Type ℓ} → Option (Option A) → Option A
or_nil none = none
or_nil (some v) = v

-- m[k] of a map of bools.
abbrev pub or_false : Option Bool → Bool
or_false none = false
or_false (some b) = b

unfoldable pub make_network : Network
make_network = record {
  reliable = true;
  long_delays = false;
  long_reordering = false;
  ends = empty;
  enabled = empty;
  servers = empty;
  connections = empty;
  closed = false;
  count = 0;
  bytes = 0;
}

-- What the goroutine of MakeNetwork does with a request before it starts `processReq`.
unfoldable pub accept : ReqMsg → Network → Network
accept req rn = record rn {
  count = (rn.count + 1) % 2 ^ 32;
  bytes = (rn.bytes + length req.args) % 2 ^ 64;
}

unfoldable pub cleanup : Network → Network
cleanup rn = record rn { closed = true }

unfoldable pub set_reliable : Bool → Network → Network
set_reliable b rn = record rn { reliable = b }

unfoldable pub is_reliable : Network → Bool
is_reliable rn = rn.reliable

unfoldable pub set_long_reordering : Bool → Network → Network
set_long_reordering b rn = record rn { long_reordering = b }

unfoldable pub set_long_delays : Bool → Network → Network
set_long_delays b rn = record rn { long_delays = b }

unfoldable pub is_long_delays : Network → Bool
is_long_delays rn = rn.long_delays

pub record EndnameInfo : Type 0 where
  pub enabled : Bool
  pub servername : Option String
  pub server : Option ℕ
  pub reliable : Bool
  pub long_reordering : Bool

-- The server stays nil where the end has no connection.
abbrev pub server_of : Network → Option String → Option ℕ
server_of rn none = none
server_of rn (some servername) = or_nil (rn.servers servername)

unfoldable pub read_endname_info : String → Network → EndnameInfo
read_endname_info endname rn =
    let servername = or_nil (rn.connections endname) in
    record {
      enabled = or_false (rn.enabled endname);
      servername = servername;
      server = server_of rn servername;
      reliable = rn.reliable;
      long_reordering = rn.long_reordering;
    }

-- rn.servers[servername] != server
abbrev pub differs : Option ℕ → ℕ → Bool
differs none server = true
differs (some s) server = not (s == server)

unfoldable pub is_server_dead : String → String → ℕ → Network → Bool
is_server_dead endname servername server rn =
    not (or_false (rn.enabled endname)) || differs (or_nil (rn.servers servername)) server

-- Fatal where the name is taken.
abbrev pub make_end_at : Option ClientEnd → String → Network → Option (Network × ClientEnd)
make_end_at (some e) endname rn = none
make_end_at none endname rn =
    let e : ClientEnd = record { endname = endname } in
    some (
      record rn {
        ends = insert endname e rn.ends;
        enabled = insert endname false rn.enabled;
        connections = insert endname none rn.connections;
      },
      e,
    )

unfoldable pub make_end : String → Network → Option (Network × ClientEnd)
make_end endname rn = make_end_at (rn.ends endname) endname rn

unfoldable pub lookup_end : String → Network → Option ClientEnd
lookup_end endname rn = rn.ends endname

-- Fatal where there is none.
abbrev pub delete_end_at : Option ClientEnd → String → Network → Option Network
delete_end_at none endname rn = none
delete_end_at (some e) endname rn = some (record rn {
  ends = erase endname rn.ends;
  enabled = erase endname rn.enabled;
  connections = erase endname rn.connections;
})

unfoldable pub delete_end : String → Network → Option Network
delete_end endname rn = delete_end_at (rn.ends endname) endname rn

unfoldable pub add_server : String → ℕ → Network → Network
add_server servername rs rn = record rn { servers = insert servername (some rs) rn.servers }

unfoldable pub delete_server : String → Network → Network
delete_server servername rn = record rn { servers = insert servername none rn.servers }

unfoldable pub connect : String → String → Network → Network
connect endname servername rn = record rn {
  connections = insert endname (some servername) rn.connections;
}

unfoldable pub enable : String → Bool → Network → Network
enable endname enabled rn = record rn { enabled = insert endname enabled rn.enabled }

unfoldable pub get_total_count : Network → ℕ
get_total_count rn = rn.count

unfoldable pub get_total_bytes : Network → ℕ
get_total_bytes rn = rn.bytes
