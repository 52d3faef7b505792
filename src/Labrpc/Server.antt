-- ===== src/Labrpc/Server.antt =====
-- labrpc/labrpc.go: a server, its services, and the way from a request to a handler. `S` is the state
-- of the objects that the handlers belong to. `none` is log.Fatalf or a panic.
use Prim.Native.Char.{code}
use linearizable_kv_store.Prelude.{
  ℕ, ◌+◌, Bool, true, Option, none, some, List, String, ◌==◌, if◌then◌else◌,
}
use linearizable_kv_store.Prelude.Dict.{Dict, empty, insert}
use linearizable_kv_store.Prelude.Panic.{◌>>=◌}
use linearizable_kv_store.Labrpc.{ReqMsg, ReplyMsg, Network, or_nil}

-- A method that looks like a handler, with the decoding of its argument and the encoding of its
-- reply, which are labgob's: from the bytes of the one to those of the other.
abbrev pub Method : Type 0 → Type 0
Method S = List ℕ → S → S × List ℕ

pub record Service (S : Type 0) : Type 0 where
  pub name : String
  pub methods : Dict (Method S)

-- `dispatchf` takes the requests over where it is set.
pub record Server (S : Type 0) : Type 0 where
  pub services : Dict (Service S)
  pub count : ℕ
  pub dispatchf : Option (String → List ℕ → S → S × List ℕ × Bool)

-- The parts of a name before and after its last dot.
unfoldable pub split_last_dot : String → Option (String × String)
split_last_dot String.[] = none
split_last_dot (String.◌∷◌ c s) = elim (split_last_dot s) [
  | some (service, method) ↦ some (String.◌∷◌ c service, method)
  | none ↦ if code c == b'.' then some ("", s) else none
]

module _ {S : Type 0} where
  unfoldable pub make_server : Server S
  make_server = record { services = empty; count = 0; dispatchf = none }

  unfoldable pub set_dispatch : (String → List ℕ → S → S × List ℕ × Bool) → Server S → Server S
  set_dispatch f rs = record rs { dispatchf = some f }

  unfoldable pub add_service : Service S → Server S → Server S
  add_service svc rs = record rs { services = insert svc.name svc rs.services }

  -- Service.dispatch
  unfoldable pub call_method : Service S → String → List ℕ → S → Option (S × ReplyMsg)
  call_method svc methname args s = svc.methods methname >>= λ method.
      some ((method args s).0, record { ok = true; reply = (method args s).1 })

  abbrev pub call_dispatchf :
      (String → List ℕ → S → S × List ℕ × Bool) → ReqMsg → S → Option (S × ReplyMsg)
  call_dispatchf f req s =
      let (s', reply, ok) = f req.svc_meth req.args s in
      some (s', record { ok = ok; reply = reply })

  -- Server.dispatch: the count goes up under the lock, and the handler runs without it.
  unfoldable pub dispatch : ReqMsg → Server S → S → Option (Server S × S × ReplyMsg)
  dispatch req rs s = split_last_dot req.svc_meth >>= λ names.
      (elim rs.dispatchf [
        | some f ↦ call_dispatchf f req s
        | none ↦ rs.services names.0 >>= λ service. call_method service names.1 req.args s
      ])
      >>= λ done. some (record rs { count = rs.count + 1 }, done.0, done.1)

  unfoldable pub server_count : Server S → ℕ
  server_count rs = rs.count

  -- Network.GetCount: a nil server panics.
  unfoldable pub get_count : String → Network → (ℕ → Server S) → Option ℕ
  get_count servername rn heap =
      or_nil (rn.servers servername) >>= λ server. some (server_count (heap server))

  -- Server.Dispatch, for a request that comes from another process.
  unfoldable pub dispatch_from :
      String → String → List ℕ → Server S → S → Option (Server S × S × ReplyMsg)
  dispatch_from svc_meth clnt args rs s =
      dispatch (record { endname = clnt; svc_meth = svc_meth; args = args }) rs s
