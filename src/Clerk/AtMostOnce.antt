-- ===== src/Clerk/AtMostOnce.antt =====
-- kvsrv1/client.go: the loop of Clerk.Put performs its put at most once.
use linearizable_kv_store.Prelude.{
  ◌+◌, ◌^◌, ◌<◌, Bool, true, false, some, List, [], ◌∷◌, ◌++◌, ◌≡◌, inl, inr, refl, sym, subst, ap,
  arith, append-nil, append_assoc,
}
use mathlib.Core.Option.{some-injective}
use linearizable_kv_store.Rpc.{Err, ok, err_version, err_maybe, PutArgs, zero_put_reply}
use linearizable_kv_store.KvServer.{KvServer, put}
use linearizable_kv_store.KvServer.Replies.{version_at, put_unchanged}
use linearizable_kv_store.Clerk.{
  Request, handle_all, lost_request, lost_reply, delivered, Round, round, Run, put_loop, clerk_put,
  final_err, size, after,
}
use linearizable_kv_store.Clerk.Linear.{
  handle_all-append, history-append, Linearized, absent, once, Reports, as_is, maybe_done,
  maybe_not,
}
use linearizable_kv_store.Clerk.Versions.{version_at-handle_all, put_late, put_passes, ok-cases}

-- A run of the loop that leaves the key alone: it is that of the other clients' requests.
record Late (kv : KvServer) (run : Run Err) : Type 0 where
  requests : List Request
  server : run.server ≡ (handle_all kv requests).0
  history : run.history ≡ (handle_all kv requests).1
  result : (e : Err) → run.result ≡ some e → e ≡ err_maybe

module _ (args : PutArgs) where
  Late-after :
      (kv : KvServer) (others : List Request) (run : Run Err)
      → Late (handle_all kv others).0 run
      → Late kv (after (handle_all kv others).1 run)
  Late-after kv others run l = record {
    requests = others ++ l.requests;
    server = rw (handle_all-append kv others l.requests) l.server;
    history =
        rw (history-append kv others l.requests)
          (ap (λ t. (handle_all kv others).1 ++ t) l.history);
    result = l.result;
  }

  -- Once the key's version has passed that of the request, the loop changes nothing, and ends in
  -- ErrMaybe if it ends.
  put_loop-Late :
      (kv : KvServer) (rounds : List Round)
      → args.version < version_at kv args.key
      → version_at kv args.key + size rounds < 2 ^ 64
      → Late kv (put_loop kv args true rounds)
  unfolding put_loop size
  put_loop-Late kv [] h room = record {
    requests = [];
    server = unfold handle_all in refl;
    history = unfold handle_all in refl;
    result = λ e q. cc;
  }
  put_loop-Late kv (round others lost_request ∷ rounds) h room =
      let grown = version_at-handle_all kv others args.key (omega arith) in
      Late-after kv others _
        (put_loop-Late (handle_all kv others).0 rounds (omega arith) (omega arith))
  put_loop-Late kv (round others lost_reply ∷ rounds) h room =
      let grown = version_at-handle_all kv others args.key (omega arith) in
      rw (put_late (handle_all kv others).0 args (omega arith)) (
        Late-after kv others _
          (put_loop-Late (handle_all kv others).0 rounds (omega arith) (omega arith)))
  put_loop-Late kv (round others delivered ∷ rounds) h room =
      let grown = version_at-handle_all kv others args.key (omega arith) in
      rw (put_late (handle_all kv others).0 args (omega arith))
        (record { requests = others; server = refl; history = refl; result = λ e q. cc })

  -- The put after `others` was the one that took effect, and the rest of the run comes late.
  once_after :
      (kv : KvServer) (others : List Request) (run : Run Err)
      → (put (handle_all kv others).0 args zero_put_reply).1.err ≡ ok
      → Late (put (handle_all kv others).0 args zero_put_reply).0 run
      → Linearized kv args (after (handle_all kv others).1 run)
  once_after kv others run done l =
      once others l.requests l.server (ap (λ t. (handle_all kv others).1 ++ t) l.history)
        (λ e q. maybe_done (l.result e q) done)

  -- Requests of others in front of a run that is linearized.
  Linearized-after :
      (kv : KvServer) (others : List Request) (run : Run Err)
      → Linearized (handle_all kv others).0 args run
      → Linearized kv args (after (handle_all kv others).1 run)
  Linearized-after kv others run (absent requests server history result) =
      absent (others ++ requests) (rw (handle_all-append kv others requests) server)
        (rw (history-append kv others requests) (ap (λ t. (handle_all kv others).1 ++ t) history))
        result
  Linearized-after kv others run (once before later server history reports) =
      once (others ++ before) later (rw (handle_all-append kv others before) server)
        (rw (history-append kv others before, handle_all-append kv others before, append_assoc)
          (ap (λ t. (handle_all kv others).1 ++ t) history))
        (λ e q. rw (handle_all-append kv others before) (reports e q))

  final_err-Reports : (retried : Bool) (r : Err) → Reports r (final_err retried r)
  unfolding final_err
  final_err-Reports true ok = as_is refl
  final_err-Reports true err_version = maybe_not refl refl
  final_err-Reports _ _ = as_is refl

  put_loop-Linearized :
      (kv : KvServer) (retried : Bool) (rounds : List Round)
      → version_at kv args.key + size rounds < 2 ^ 64
      → Linearized kv args (put_loop kv args retried rounds)
  unfolding put_loop size
  put_loop-Linearized kv retried [] room =
      absent [] (unfold handle_all in refl) (unfold handle_all in refl) refl
  put_loop-Linearized kv retried (round others lost_request ∷ rounds) room =
      let grown = version_at-handle_all kv others args.key (omega arith) in
      Linearized-after kv others _
        (put_loop-Linearized (handle_all kv others).0 true rounds (omega arith))
  put_loop-Linearized kv retried (round others lost_reply ∷ rounds) room =
      let s = (handle_all kv others).0 in
      let grown = version_at-handle_all kv others args.key (omega arith) in
      elim (ok-cases (put s args zero_put_reply).1.err) [
        | inl done ↦
            let passed = put_passes s args (omega arith) done in
            once_after kv others _ done
              (put_loop-Late (put s args zero_put_reply).0 rounds (omega arith) (omega arith))
        | inr failed ↦
            rw (put_unchanged s args zero_put_reply failed)
              (Linearized-after kv others _ (put_loop-Linearized s true rounds (omega arith)))
      ]
  put_loop-Linearized kv retried (round others delivered ∷ rounds) room =
      once others [] (unfold handle_all in refl) (unfold handle_all in sym (append-nil _))
        (λ e q. subst (Reports _) (some-injective _ _ q) (final_err-Reports retried _))

-- Clerk.Put, whatever calls the network loses and whatever other clients do in between, performs
-- its put at most once: either the run has no result and is that of the other clients' requests, or
-- it is that of some of them, one Put at the server, and the others, with the replies that these get
-- in that order, and the result is the reply of that one Put, or ErrMaybe for OK or ErrVersion. The
-- versions of the key stay below 2 ^ 64 for as many requests as the rounds hold.
pub clerk_put-Linearized :
    (kv : KvServer) (args : PutArgs) (rounds : List Round)
    → version_at kv args.key + size rounds < 2 ^ 64
    → Linearized kv args (clerk_put kv args rounds)
unfolding clerk_put
clerk_put-Linearized kv args rounds room = put_loop-Linearized args kv false rounds room
