-- ===== src/Labrpc/Process/Effects.antt =====
-- labrpc/labrpc.go with kvsrv1/server.go behind it: what each step of processReq makes of the states
-- of the key/value servers.
use linearizable_kv_store.Labrpc.Process.Asked.{
  if_on, if_off, append_nil, append_assoc, if_to, handle_all-if_to, requests_to, requests_to-append,
  state_after, requests_to-served,
}
use mathlib.Core.Option.{some-injective}
use linearizable_kv_store.Prelude.{
  ℕ, ◌+◌, ◌≡◌, refl, sym, ap, ◌∙◌, subst, some, List, [], ◌∷◌, ◌++◌, String, inl, inr, ◌==◌, ==_iff,
  Bool-cases,
}
use linearizable_kv_store.Prelude.Family.{update}
use linearizable_kv_store.Rpc.{PutArgs, zero_put_reply}
use linearizable_kv_store.KvServer.{KvServer, put}
use linearizable_kv_store.Clerk.{Request, handle, handle_all, delivered, call_put}
use linearizable_kv_store.Labrpc.{ReqMsg, ReplyMsg}
use linearizable_kv_store.Labrpc.Server.{Server, dispatch}
use linearizable_kv_store.Labrpc.Process.{
  Env, Process, Handler, not_started, started, finished, ran, changes, handles, Step, others, reads,
  times_out, drops_request, executes, handler_returns, takes_reply, gives_up, refuses, drops_reply,
  delays_reply, replies, replies_late, Reach, begin, next,
}
use linearizable_kv_store.Labrpc.Process.Once.{Act, served, own, acts_of, acts}
use linearizable_kv_store.Labrpc.Process.Answers.{Staged, reach-Staged}
use linearizable_kv_store.Labrpc.Process.Kv.{
  Coding, AllKv, counted, put_req, put_answer, read_request, dispatch-put, dispatch-handles,
}

module _ (coding : Coding) where
  module _ (args : PutArgs) (e : Env KvServer) where
    -- The servers' states at each stage of this request's handler.
    unfoldable pub Effect : (ℕ → KvServer) → List Act → Handler → Type 0
    Effect w done (finished server reply) =
        (before : List Request) × (later : List Request) × (before ++ later
          ≡ requests_to coding server done)
        × (reply
            ≡ put_answer coding (put (handle_all (e.world server) before).0 args zero_put_reply).1)
        × ((j : ℕ) → w j ≡ state_after coding e.world done args server before delivered later j)
    Effect w done _ = (j : ℕ) → w j ≡ (handle_all (e.world j) (requests_to coding j done)).0

    quiet :
        (w : ℕ → KvServer) (done : List Act) (h : Handler)
        → Effect w done h
        → Effect w (done ++ []) h
    quiet w done h i = subst (λ l. Effect w l h) (sym (append_nil done)) i

    others-Effect :
        (q : ReqMsg) (server : ℕ) (r : Request) (kv' : KvServer) (w : ℕ → KvServer)
        (done : List Act) (h : Handler)
        → read_request coding q ≡ some r
        → kv' ≡ (handle (w server) r).0
        → Effect w done h
        → Effect (update w server kv') (done ++ served q server ∷ []) h
    unfolding Effect call_put
    others-Effect q server r kv' w done not_started read k i = λ j.
        handle_all-if_to (e.world j) kv' w (requests_to coding j done) server j r (i j) k
        ∙ ap (λ l. (handle_all (e.world j) l).0)
            (sym (requests_to-served coding q server j r done read))
    others-Effect q server r kv' w done (started s) read k i = λ j.
        handle_all-if_to (e.world j) kv' w (requests_to coding j done) server j r (i j) k
        ∙ ap (λ l. (handle_all (e.world j) l).0)
            (sym (requests_to-served coding q server j r done read))
    others-Effect q server r kv' w done (finished home reply) read k (before, later, split, is, i) =
        (
          before,
          later ++ if_to server home r,
          sym (append_assoc before later (if_to server home r))
              ∙ ap (λ l. l ++ if_to server home r) split
              ∙ sym (requests_to-served coding q server home r done read),
          is,
          λ j. elim (Bool-cases (home == j)) [
            | inl p ↦
                handle_all-if_to (put (handle_all (e.world j) before).0 args zero_put_reply).0 kv' w
                  later server j r (i j ∙ if_on _ p) k
                ∙ ap
                    (λ m.
                      (handle_all (put (handle_all (e.world j) before).0 args zero_put_reply).0
                        (later ++ if_to server m r)).0)
                    (sym ((==_iff home j).0 p))
                ∙ sym (if_on _ p)
            | inr p ↦
                handle_all-if_to (e.world j) kv' w (requests_to coding j done) server j r
                  (i j ∙ if_off _ p) k
                ∙ ap (λ l. (handle_all (e.world j) l).0)
                    (sym (requests_to-served coding q server j r done read))
                ∙ sym (if_off _ p)
          ],
        )

    own-Effect :
        (server : ℕ) (w : ℕ → KvServer) (done : List Act) (kv' : KvServer) (reply : ReplyMsg)
        → Effect w done (started server)
        → kv' ≡ (put (w server) args zero_put_reply).0
        → reply ≡ put_answer coding (put (w server) args zero_put_reply).1
        → Effect (update w server kv') (done ++ own server ∷ []) (finished server reply)
    unfolding Effect call_put handle_all requests_to
    own-Effect server w done kv' reply i k is = (
      requests_to coding server done,
      [],
      append_nil (requests_to coding server done) ∙ sym (same server),
      is ∙ ap (λ s. put_answer coding (put s args zero_put_reply).1) (i server),
      λ j. elim (Bool-cases (server == j)) [
        | inl p ↦
            if_on _ p
            ∙ k
            ∙ ap (λ s. (put s args zero_put_reply).0)
                (i server
                  ∙ ap (λ m. (handle_all (e.world m) (requests_to coding server done)).0)
                      ((==_iff server j).0 p))
            ∙ sym (if_on _ p)
        | inr p ↦
            if_off _ p
            ∙ i j
            ∙ ap (λ l. (handle_all (e.world j) l).0) (sym (same j))
            ∙ sym (if_off _ p)
      ],
    )
      where
        same : (j : ℕ) → requests_to coding j (done ++ own server ∷ []) ≡ requests_to coding j done
        same j =
            requests_to-append coding j done (own server ∷ [])
            ∙ append_nil (requests_to coding j done)

    AllKv-ran :
        (s : Env KvServer) (server n : ℕ) (rs : Server KvServer) (kv' : KvServer)
        → AllKv coding s
        → rs ≡ counted coding n
        → AllKv coding (ran s server rs kv')
    AllKv-ran s server n rs kv' kv h i = elim (Bool-cases (server == i)) [
      | inl p ↦ (n, if_on _ p ∙ h)
      | inr p ↦ let (m, at) = kv i in (m, if_off _ p ∙ at)
    ]

    module _ (endname : String) where
      step-Effect :
          {s t : Process KvServer} (st : Step (put_req coding endname args) s t) (done : List Act)
          → Staged s.stage s.handler
          → AllKv coding s.env × Effect s.env.world done s.handler
          → AllKv coding t.env × Effect t.env.world (done ++ acts_of st) t.handler
      unfolding acts_of Effect Staged
      step-Effect {s} (others (changes c)) done i (kv, f) = (kv, quiet s.env.world done s.handler f)
      step-Effect {s} (others (handles q server {rs} {world = kv'} d)) done i (kv, f) =
          let (n, at) = kv server in
          let (r, read, is, k) =
            dispatch-handles coding q n (s.env.world server)
              (ap (λ x. dispatch q x (s.env.world server)) (sym at) ∙ d) in
          (
            AllKv-ran s.env server (n + 1) rs kv' kv is,
            others-Effect q server r kv' s.env.world done s.handler read k f,
          )
      step-Effect {s} (executes route p) done i (kv, f) =
          let h : s.handler ≡ not_started = subst (λ stage. Staged stage s.handler) p i in
          (
            kv,
            quiet s.env.world done (started route.server)
                (subst (λ h. Effect s.env.world done h) h f),
          )
      step-Effect {s} (handler_returns server {rs} {world = kv'} {reply} p d) done i (kv, f) =
          let (n, at) = kv server in
          let same =
            some-injective _ (rs, kv', reply)
              (sym (dispatch-put coding endname args n (s.env.world server))
                ∙ ap (λ x. dispatch (put_req coding endname args) x (s.env.world server)) (sym at)
                ∙ d) in
          (
            AllKv-ran s.env server (n + 1) rs kv' kv
                (sym (ap (λ (x : Server KvServer × KvServer × ReplyMsg). x.0) same)),
            own-Effect server s.env.world done kv' reply
                (subst (λ h. Effect s.env.world done h) p f)
                (sym (ap (λ (x : Server KvServer × KvServer × ReplyMsg). x.1) same))
                (sym (ap (λ (x : Server KvServer × KvServer × ReplyMsg). x.2) same)),
          )
      step-Effect {s} (reads p) done i (kv, f) = (kv, quiet s.env.world done s.handler f)
      step-Effect {s} (times_out p) done i (kv, f) = (kv, quiet s.env.world done s.handler f)
      step-Effect {s} (drops_request route p u) done i (kv, f) =
          (kv, quiet s.env.world done s.handler f)
      step-Effect {s} (takes_reply route reply p h) done i (kv, f) =
          (kv, quiet s.env.world done s.handler f)
      step-Effect {s} (gives_up route p dead) done i (kv, f) =
          (kv, quiet s.env.world done s.handler f)
      step-Effect {s} (refuses route reply p dead) done i (kv, f) =
          (kv, quiet s.env.world done s.handler f)
      step-Effect {s} (drops_reply route reply p alive u) done i (kv, f) =
          (kv, quiet s.env.world done s.handler f)
      step-Effect {s} (delays_reply route reply p alive l) done i (kv, f) =
          (kv, quiet s.env.world done s.handler f)
      step-Effect {s} (replies route reply p alive) done i (kv, f) =
          (kv, quiet s.env.world done s.handler f)
      step-Effect {s} (replies_late reply p) done i (kv, f) =
          (kv, quiet s.env.world done s.handler f)

      pub reach-Effect :
          {s : Process KvServer} (r : Reach (put_req coding endname args) e s)
          → AllKv coding e
          → AllKv coding s.env × Effect s.env.world (acts r) s.handler
      unfolding acts Effect requests_to handle_all
      reach-Effect begin kv = (kv, λ j. refl)
      reach-Effect (next r st) kv = step-Effect st (acts r) (reach-Staged r) (reach-Effect r kv)
