-- ===== src/Labrpc/Call.antt =====
-- labrpc/labrpc.go: ClientEnd.Call and ClientEnd.Forward, from what came of the request to what the
-- caller has. `none` is log.Fatalf: bytes that are no reply.
use linearizable_kv_store.Prelude.{
  ◌≡◌, refl, ap, ◌∙◌, Bool, true, false, Option, none, some, List, [], ℕ, String, ◌++◌, ◌==◌,
  if◌then◌else◌,
}
use linearizable_kv_store.Prelude.Panic.{◌>>=◌}
use linearizable_kv_store.Labrpc.Process.Once.{acts}
use linearizable_kv_store.Labrpc.Process.Asked.{requests_to}
use linearizable_kv_store.Rpc.{PutArgs, PutReply, zero_put_reply}
use linearizable_kv_store.KvServer.{KvServer}
use linearizable_kv_store.Clerk.{Request, handle_all, Fate, call_put}
use linearizable_kv_store.Labrpc.{ReplyMsg}
use linearizable_kv_store.Labrpc.Process.{Env, Process, replied, Reach}
use linearizable_kv_store.Labrpc.Process.Kv.{AllKv, answer, Coding, put_req}
use linearizable_kv_store.Labrpc.Process.Calls.{replied-Called}

-- The answer of the end's own call function, or what came of the request on the network: nothing where
-- the network had been destroyed before.
pub data Exchange : Type 0 where
  by_callf : List ℕ → Bool → Exchange
  by_network : Option ReplyMsg → Exchange

-- `decode` is Unmarshall into the caller's variable.
unfoldable pub unmarshall :
    {A : Type 0} → (List ℕ → A → Option A) → Bool → List ℕ → A → Option (Bool × A)
unmarshall decode false rep reply = some (false, reply)
unmarshall decode true rep reply = decode rep reply >>= λ filled. some (true, filled)

unfoldable pub call : {A : Type 0} → (List ℕ → A → Option A) → Exchange → A → Option (Bool × A)
unfolding unmarshall
call decode (by_callf rep ok) reply = unmarshall decode ok rep reply
call decode (by_network none) reply = some (false, reply)
call decode (by_network (some rep)) reply = unmarshall decode rep.ok rep.reply reply

unfoldable pub forward : Option ReplyMsg → List ℕ × Bool
forward none = ([], false)
forward (some rep) = (rep.reply, rep.ok)

-- What the clerk's model says of a call: whether a reply came, and the reply's variable.
abbrev pub outcome : Option PutReply → Bool × PutReply
outcome none = (false, zero_put_reply)
outcome (some reply) = (true, reply)

call-answer :
    (coding : Coding) (decode : List ℕ → PutReply → Option PutReply) (reply : Option PutReply)
    → ((r : PutReply) → decode (coding.encode_put_reply r) zero_put_reply ≡ some r)
    → call decode (by_network (some (answer coding reply))) zero_put_reply ≡ some (outcome reply)
unfolding call unmarshall
call-answer coding decode none law = refl
call-answer coding decode (some r) law = rw (law r) refl

-- What an answered call came to, at one server, with one of the fates of the clerk's model: the requests
-- of others that returned there on its way are `before` and `later` in their order, its state is what
-- `before`, the call with the fate, and `later` make of it, the state of every other server is what the
-- requests of others make of it, and the caller has the model's result.
pub record Outcome (coding : Coding) (decode : List ℕ → PutReply → Option PutReply)
    {endname : String} (args : PutArgs) {e : Env KvServer} {s : Process KvServer}
    (r : Reach (put_req coding endname args) e s) (reply : ReplyMsg) : Type 0 where
  pub server : ℕ
  pub before : List Request
  pub later : List Request
  pub fate : Fate
  pub split : before ++ later ≡ requests_to coding server (acts r)
  pub states :
      (j : ℕ)
      → s.env.world j ≡ (
          if server == j
          then (handle_all (call_put (handle_all (e.world j) before).0 args fate).0 later).0
          else (handle_all (e.world j) (requests_to coding j (acts r))).0)
  pub result :
      call decode (by_network (some reply)) zero_put_reply
      ≡ some (outcome (call_put (handle_all (e.world server) before).0 args fate).1)

-- A Put that a clerk calls through the network, whatever others send to the key/value servers and
-- whatever is done to the network on the way: once it is answered, the call is one call to one server
-- with one of the fates of the clerk's model. The requests of others whose handlers returned there fall
-- into those before it and those after it, that server's state is what the former, the call with its
-- fate, and the latter make of it, every other server's state is what the requests of others make of it,
-- and the caller has the result that the model gives for that fate. labgob's decoding of a reply is to
-- give back what was encoded.
pub call-replied :
    (coding : Coding) (decode : List ℕ → PutReply → Option PutReply) (endname : String)
    (args : PutArgs) (e : Env KvServer) {s : Process KvServer}
    (r : Reach (put_req coding endname args) e s) (reply : ReplyMsg)
    → ((r : PutReply) → decode (coding.encode_put_reply r) zero_put_reply ≡ some r)
    → AllKv coding e
    → s.stage ≡ replied reply
    → Outcome coding decode args r reply
call-replied coding decode endname args e r reply law kv p =
    let c = replied-Called coding args e endname r reply kv p in
    record {
      server = c.server;
      before = c.before;
      later = c.later;
      fate = c.fate;
      split = c.split;
      states = c.states;
      result =
          ap (λ m. call decode (by_network (some m)) zero_put_reply) c.same
          ∙ call-answer coding decode
              (call_put (handle_all (e.world c.server) c.before).0 args c.fate).1 law;
    }
