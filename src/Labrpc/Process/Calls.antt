-- ===== src/Labrpc/Process/Calls.antt =====
-- labrpc/labrpc.go with kvsrv1/server.go behind it: a Put that goes through processReq is one call of
-- the clerk's model, with one of its fates, among the requests that others sent on its way.
use linearizable_kv_store.Labrpc.Process.Effects.{Effect, reach-Effect}
use linearizable_kv_store.Labrpc.Process.Asked.{if_on, if_off, append_nil, requests_to, state_after}
use linearizable_kv_store.Prelude.{
  ℕ, ◌≡◌, refl, sym, ap, ◌∙◌, subst, List, [], ◌++◌, String, inl, inr, ◌==◌, ==_iff, Bool-cases,
}
use linearizable_kv_store.Rpc.{PutArgs}
use linearizable_kv_store.KvServer.{KvServer}
use linearizable_kv_store.Clerk.{
  Request, handle_all, Fate, lost_request, lost_reply, delivered, call_put,
}
use linearizable_kv_store.Labrpc.{ReplyMsg, no_reply}
use linearizable_kv_store.Labrpc.Process.{
  Env, Process, Handler, not_started, started, finished, replied, Reach,
}
use linearizable_kv_store.Labrpc.Process.Once.{Act, acts}
use linearizable_kv_store.Labrpc.Process.Answers.{Staged, reach-Staged}
use linearizable_kv_store.Labrpc.Process.Kv.{Coding, AllKv, answer, put_req}

module _ (coding : Coding) (args : PutArgs) (e : Env KvServer) (endname : String) where
  -- What an answered Put has come to: a call to one server with one of the fates, among what others
  -- asked of the servers on its way.
  pub record Called {s : Process KvServer} (r : Reach (put_req coding endname args) e s)
      (reply : ReplyMsg) : Type 0 where
    pub server : ℕ
    pub before : List Request
    pub later : List Request
    pub fate : Fate
    pub split : before ++ later ≡ requests_to coding server (acts r)
    pub states :
        (j : ℕ)
        → s.env.world j ≡ state_after coding e.world (acts r) args server before fate later j
    pub same : reply ≡ answer coding (call_put (handle_all (e.world server) before).0 args fate).1

  lost-states :
      (w : ℕ → KvServer) (done : List Act)
      → ((j : ℕ) → w j ≡ (handle_all (e.world j) (requests_to coding j done)).0)
      → (j : ℕ)
      → w j ≡ state_after coding e.world done args 0 (requests_to coding 0 done) lost_request [] j
  unfolding call_put handle_all
  lost-states w done f j = elim (Bool-cases (0 == j)) [
    | inl p ↦
        f j
        ∙ ap (λ m. (handle_all (e.world j) (requests_to coding m done)).0) (sym ((==_iff 0 j).0 p))
        ∙ sym (if_on _ p)
    | inr p ↦ f j ∙ sym (if_off _ p)
  ]

  finished-Called :
      {s : Process KvServer} (r : Reach (put_req coding endname args) e s) (reply : ReplyMsg)
      → (server : ℕ) → Effect coding args e s.env.world (acts r) (finished server reply)
      → Called r reply
  unfolding Effect call_put
  finished-Called r reply server (before, later, split, is, states) = record {
    server = server;
    before = before;
    later = later;
    fate = delivered;
    split = split;
    states = states;
    same = is;
  }

  failed-Called :
      {s : Process KvServer} (r : Reach (put_req coding endname args) e s) (h : Handler)
      → s.handler ≡ h
      → Effect coding args e s.env.world (acts r) h
      → Called r no_reply
  unfolding Effect call_put
  failed-Called r not_started p f = record {
    server = 0;
    before = requests_to coding 0 (acts r);
    later = [];
    fate = lost_request;
    split = append_nil (requests_to coding 0 (acts r));
    states = lost-states _ (acts r) f;
    same = refl;
  }
  failed-Called r (started server) p f = record {
    server = 0;
    before = requests_to coding 0 (acts r);
    later = [];
    fate = lost_request;
    split = append_nil (requests_to coding 0 (acts r));
    states = lost-states _ (acts r) f;
    same = refl;
  }
  failed-Called r (finished server reply) p (before, later, split, is, states) = record {
    server = server;
    before = before;
    later = later;
    fate = lost_reply;
    split = split;
    states = states;
    same = refl;
  }

  pub replied-Called :
      {s : Process KvServer} (r : Reach (put_req coding endname args) e s) (reply : ReplyMsg)
      → AllKv coding e
      → s.stage ≡ replied reply
      → Called r reply
  unfolding Staged
  replied-Called {s} r reply kv p =
      elim (subst (λ stage. Staged stage s.handler) p (reach-Staged r)) [
        | inl q ↦
            subst (λ m. Called r m) (sym q)
              (failed-Called r s.handler refl (reach-Effect coding args e endname r kv).1)
        | inr (server, q) ↦ finished-Called r reply server (
            subst (λ h. Effect coding args e s.env.world (acts r) h) q
              (reach-Effect coding args e endname r kv).1)
      ]
