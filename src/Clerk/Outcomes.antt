-- ===== src/Clerk/Outcomes.antt =====
-- kvsrv1/client.go: what the results of the clerk's calls say.
use linearizable_kv_store.Prelude.{
  ◌+◌, ◌^◌, ◌<◌, Bool, true, false, Option, none, some, List, [], ◌∷◌, ◌++◌, ◌≡◌, ◌≢◌, ◌⊎◌, inl,
  inr, refl, ap, arith, ◌∙◌,
}
use mathlib.Core.Option.{some-injective}
use linearizable_kv_store.Rpc.{
  Err, ok, err_no_key, err_version, err_maybe, PutArgs, zero_put_reply, GetArgs, GetReply,
}
use linearizable_kv_store.KvServer.{KvServer, put}
use linearizable_kv_store.KvModel.{KvState, step}
use linearizable_kv_store.KvServer.Model.{
  view, put_input, put_output, put-step, get_input, get_output, get-step,
}
use linearizable_kv_store.KvServer.Replies.{Shown, get-Shown, version_at, put_unchanged}
use linearizable_kv_store.Clerk.{
  Request, handle_all, lost_request, lost_reply, clerk_get, delivered, Round, round, Run, put_loop,
  clerk_put, size, after,
}
use linearizable_kv_store.Clerk.Linear.{
  handle_all-append, history-append, Linearized, absent, once, Reports, as_is, maybe_done,
  maybe_not,
}
use linearizable_kv_store.Clerk.AtMostOnce.{clerk_put-Linearized}

abbrev pub Arrives : List Round → Type 0
Arrives [] = ⊥
Arrives (round _ delivered ∷ rounds) = Unit {0}
Arrives (round _ _ ∷ rounds) = Arrives rounds

put_loop-ends :
    (kv : KvServer) (args : PutArgs) (retried : Bool) (rounds : List Round)
    → Arrives rounds
    → (e : Err) × ((put_loop kv args retried rounds).result ≡ some e)
unfolding put_loop
put_loop-ends kv args retried [] h = absurd h
put_loop-ends kv args retried (round others lost_request ∷ rounds) h =
    put_loop-ends (handle_all kv others).0 args true rounds h
put_loop-ends kv args retried (round others lost_reply ∷ rounds) h =
    put_loop-ends (put (handle_all kv others).0 args zero_put_reply).0 args true rounds h
put_loop-ends kv args retried (round others delivered ∷ rounds) h = (_, refl)

-- Clerk.Put returns as soon as one of its calls brings a reply.
pub clerk_put-ends :
    (kv : KvServer) (args : PutArgs) (rounds : List Round)
    → Arrives rounds
    → (e : Err) × ((clerk_put kv args rounds).result ≡ some e)
unfolding clerk_put
clerk_put-ends kv args rounds h = put_loop-ends kv args false rounds h

not_done : (r e : Err) → (e ≡ err_version) ⊎ (e ≡ err_no_key) → Reports r e → r ≢ ok
not_done r e h (as_is p) = λ q. ground arith
not_done r e h (maybe_done p _) = λ q. ground arith
not_done r e h (maybe_not p v) = λ q. ground arith

none_or_some {ℓ} : {A : Type ℓ} {o : Option A} {a : A} → o ≡ none → o ≡ some a → ⊥
none_or_some p q = cc

-- One moment of the run at which the checker's specification accepts the put with result `e`.
pub record Accepted (kv : KvServer) (args : PutArgs) (run : Run Err) (e : Err) : Type 0 where
  pub before : List Request
  pub later : List Request
  pub server :
      run.server ≡ (handle_all (put (handle_all kv before).0 args zero_put_reply).0 later).0
  pub history :
      run.history
      ≡ (handle_all kv before).1
        ++ (handle_all (put (handle_all kv before).0 args zero_put_reply).0 later).1
  pub accepts :
      step (view (handle_all kv before).0 args.key) (put_input args) (put_output e)
      ≡ (true, some (view (put (handle_all kv before).0 args zero_put_reply).0 args.key))

step_maybe :
    (st t : KvState) (args : PutArgs) (r : Err)
    → (r ≡ ok) ⊎ (r ≡ err_version)
    → step st (put_input args) (put_output r) ≡ (true, some t)
    → step st (put_input args) (put_output err_maybe) ≡ (true, some t)
unfolding step
step_maybe st t args r h p = ground arith

report_accepted :
    (kv : KvServer) (args : PutArgs) (e : Err)
    → Reports (put kv args zero_put_reply).1.err e
    → e ≢ err_no_key
    → step (view kv args.key) (put_input args) (put_output e)
      ≡ (true, some (view (put kv args zero_put_reply).0 args.key))
report_accepted kv args e (as_is p) n = rw p ((put-step kv args (λ q. n (p ∙ q))).0)
report_accepted kv args e (maybe_done p r) n =
    rw p (step_maybe _ _ args _ (inl r) (put-step kv args (λ q. cc)).0)
report_accepted kv args e (maybe_not p r) n =
    rw p (step_maybe _ _ args _ (inr r) (put-step kv args (λ q. cc)).0)

abbrev pub GetAt : KvServer → GetArgs → GetReply → Run GetReply → Type 0
GetAt kv args r run =
    (requests : List Request) × (run.server ≡ (handle_all kv requests).0)
    × (run.history ≡ (handle_all kv requests).1)
    × Shown ((handle_all kv requests).0.store args.key) r
    × (step (view (handle_all kv requests).0 args.key) (get_input args) (get_output r)
        ≡ (true, some (view (handle_all kv requests).0 args.key)))

get_after :
    (kv : KvServer) (others : List Request) (args : GetArgs) (run : Run GetReply) (r : GetReply)
    → GetAt (handle_all kv others).0 args r run
    → GetAt kv args r (after (handle_all kv others).1 run)
get_after kv others args run r (requests, server, history, shown, accepts) = (
  others ++ requests,
  rw (handle_all-append kv others requests) server,
  rw (history-append kv others requests) (ap (λ t. (handle_all kv others).1 ++ t) history),
  rw (handle_all-append kv others requests) shown,
  rw (handle_all-append kv others requests) accepts,
)

module _ (kv : KvServer) (args : PutArgs) (rounds : List Round) where
  refused :
      Linearized kv args (clerk_put kv args rounds)
      → (e : Err) → ((r : Err) → Reports r e → r ≢ ok)
      → (clerk_put kv args rounds).result ≡ some e
      → (requests : List Request) × ((clerk_put kv args rounds).server ≡ (handle_all kv requests).0)
        × ((clerk_put kv args rounds).history ≡ (handle_all kv requests).1)
  refused (absent requests server history result) e failed q = (requests, server, history)
  refused (once before later server history reports) e failed q =
      let same =
        put_unchanged (handle_all kv before).0 args zero_put_reply (failed _ (reports e q)) in
      (
        before ++ later,
        server ∙ (rw (handle_all-append kv before later, same) refl),
        history ∙ (rw (history-append kv before later, same) refl),
      )

  -- When Clerk.Put returns ErrVersion or ErrNoKey, its put was never performed: the server and the
  -- other clients' replies are those of a run without this clerk.
  pub clerk_put_refused :
      (e : Err)
      → version_at kv args.key + size rounds < 2 ^ 64
      → (clerk_put kv args rounds).result ≡ some e
      → (e ≡ err_version) ⊎ (e ≡ err_no_key)
      → (requests : List Request) × ((clerk_put kv args rounds).server ≡ (handle_all kv requests).0)
        × ((clerk_put kv args rounds).history ≡ (handle_all kv requests).1)
  clerk_put_refused e room q h =
      refused (clerk_put-Linearized kv args rounds room) e (λ r p. not_done r e h p) q

  accepted :
      Linearized kv args (clerk_put kv args rounds)
      → (e : Err) → e ≢ err_no_key
      → (clerk_put kv args rounds).result ≡ some e
      → Accepted kv args (clerk_put kv args rounds) e
  accepted (absent requests server history result) e n q = absurd (none_or_some result q)
  accepted (once before later server history reports) e n q = record {
    before = before;
    later = later;
    server = server;
    history = history;
    accepts = report_accepted (handle_all kv before).0 args e (reports e q) n;
  }

  -- Clerk.Put is linearizable for the checker's specification: when it returns anything but
  -- ErrNoKey, while the key's versions stay below 2 ^ 64, there is one moment of its run at which the
  -- specification accepts what it returned, and goes from the state of the key before that moment to
  -- the state after; all else in the run is the other clients' doing.
  pub clerk_put-Accepted :
      (e : Err)
      → version_at kv args.key + size rounds < 2 ^ 64
      → e ≢ err_no_key
      → (clerk_put kv args rounds).result ≡ some e
      → Accepted kv args (clerk_put kv args rounds) e
  clerk_put-Accepted e room n q = accepted (clerk_put-Linearized kv args rounds room) e n q

-- The result of Clerk.Get says what the server holds at the moment of the call that brought the reply:
-- OK with the key's value and version, or ErrNoKey with no value and version 0 where the key is missing.
-- The specification accepts it there, and the clerk has changed nothing at the server.
pub clerk_get-step :
    (kv : KvServer) (args : GetArgs) (rounds : List Round) (r : GetReply)
    → (clerk_get kv args rounds).result ≡ some r
    → GetAt kv args r (clerk_get kv args rounds)
unfolding clerk_get
clerk_get-step kv args [] r q = cc
clerk_get-step kv args (round others lost_request ∷ rounds) r q =
    get_after kv others args (clerk_get (handle_all kv others).0 args rounds) r
      (clerk_get-step (handle_all kv others).0 args rounds r q)
clerk_get-step kv args (round others lost_reply ∷ rounds) r q =
    get_after kv others args (clerk_get (handle_all kv others).0 args rounds) r
      (clerk_get-step (handle_all kv others).0 args rounds r q)
clerk_get-step kv args (round others delivered ∷ rounds) r q = (
  others,
  refl,
  refl,
  rw (← some-injective _ _ q) (get-Shown (handle_all kv others).0 args),
  rw (← some-injective _ _ q) (get-step (handle_all kv others).0 args),
)
