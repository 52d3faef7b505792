-- ===== src/Clerk.antt =====
-- kvsrv1/client.go: the clerk's retry loops, over a network that loses requests and replies, with
-- other clients' requests in between. `Clnt.Call` is a call that reports true when a reply came.
pub mod Linear
pub mod Versions
pub mod AtMostOnce
pub mod Outcomes
mod Tests
use linearizable_kv_store.Prelude.{
  ℕ, zero, suc, ◌+◌, Bool, true, false, Option, none, some, List, [], ◌∷◌, ◌++◌, length,
}
use linearizable_kv_store.Rpc.{
  Err, err_version, err_maybe, PutArgs, PutReply, GetArgs, GetReply, zero_put_reply, zero_get_reply,
}
use linearizable_kv_store.KvServer.{KvServer, get, put}

-- What may come to the server, and what it answers.
pub data Request : Type 0 where
  get_request : GetArgs → Request
  put_request : PutArgs → Request

pub data Reply : Type 0 where
  get_reply : GetReply → Reply
  put_reply : PutReply → Reply

abbrev pub History : Type 0
History = List (Request × Reply)

unfoldable pub handle : KvServer → Request → KvServer × Reply
handle kv (get_request args) = (kv, get_reply (get kv args zero_get_reply))
handle kv (put_request args) =
    let (kv', reply) = put kv args zero_put_reply in (kv', put_reply reply)

unfoldable pub handle_all : KvServer → List Request → KvServer × History
unfolding handle
handle_all kv [] = (kv, [])
handle_all kv (r ∷ rs) =
    let (kv', reply) = handle kv r in
    let (kv'', history) = handle_all kv' rs in (kv'', (r, reply) ∷ history)

-- The fate of one call: the request is lost, the server runs it and the reply is lost, or it ends
-- with a reply.
pub data Fate : Type 0 where
  lost_request : Fate
  lost_reply : Fate
  delivered : Fate

unfoldable pub call_put : KvServer → PutArgs → Fate → KvServer × Option PutReply
call_put kv args lost_request = (kv, none)
call_put kv args lost_reply = ((put kv args zero_put_reply).0, none)
call_put kv args delivered = let (kv', reply) = put kv args zero_put_reply in (kv', some reply)

unfoldable pub call_get : KvServer → GetArgs → Fate → Option GetReply
call_get kv args lost_request = none
call_get kv args lost_reply = none
call_get kv args delivered = some (get kv args zero_get_reply)

-- One round of a clerk's loop: what the server handles for others since the round before, and then
-- the fate of this clerk's call.
pub data Round : Type 0 where
  round : (others : List Request) (fate : Fate) → Round

-- What the server has handled for others, its state, and the clerk's result: `none` while the loop
-- still waits, when the rounds have run out.
pub record Run (A : Type 0) : Type 0 where
  pub server : KvServer
  pub history : History
  pub result : Option A

abbrev pub after : {A : Type 0} → History → Run A → Run A
after history run = record run { history = history ++ run.history }

final_err : Bool → Err → Err
final_err true err_version = err_maybe
final_err _ err = err

-- The loop of Clerk.Put.
unfoldable pub put_loop : KvServer → PutArgs → Bool → List Round → Run Err
unfolding call_put final_err
put_loop kv args retried [] = record { server = kv; history = []; result = none }
put_loop kv args retried (round others fate ∷ rounds) =
    let (kv1, history) = handle_all kv others in
    let (kv2, reply) = call_put kv1 args fate in
    let again = put_loop kv2 args true rounds in
    elim reply [
      | none ↦ after history again
      | some r ↦ record { server = kv2; history = history; result = some (final_err retried r.err) }
    ]

unfoldable pub clerk_put : KvServer → PutArgs → List Round → Run Err
unfolding put_loop
clerk_put kv args rounds = put_loop kv args false rounds

-- The loop of Clerk.Get.
unfoldable pub clerk_get : KvServer → GetArgs → List Round → Run GetReply
unfolding call_get
clerk_get kv args [] = record { server = kv; history = []; result = none }
clerk_get kv args (round others fate ∷ rounds) =
    let (kv1, history) = handle_all kv others in
    let again = clerk_get kv1 args rounds in
    elim (call_get kv1 args fate) [
      | none ↦ after history again
      | some r ↦ record { server = kv1; history = history; result = some r }
    ]

-- How many requests the server may handle while the rounds last.
unfoldable pub size : List Round → ℕ
size [] = 0
size (round others fate ∷ rounds) = length others + 1 + size rounds
