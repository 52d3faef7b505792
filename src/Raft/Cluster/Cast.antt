-- ===== src/Raft/Cluster/Cast.antt =====
-- raft1/raft.go: casting a vote, and counting it, keep the invariant of the votes.
use linearizable_kv_store.Prelude.{
  ℕ, ◌+◌, ◌*◌, ◌<◌, ◌≡◌, inl, inr, sym, ap, ◌∙◌, subst, true, Option, none, some, ◌==◌, ==_iff,
  ◌&&◌, arith, Bool-cases,
}
use native.Mathlib.Decide.{dec_lt}
use linearizable_kv_store.Prelude.Family.{
  update, update_cases, put_at, put_at_cases, sum_below, sum_below-update, sum_below_congr,
}
use mathlib.Core.Option.{none-ne-some}
use linearizable_kv_store.Raft.{leader, Codec, Raft, RequestVoteArgs}
use linearizable_kv_store.Raft.Quiet.Elect.{Granted}
use linearizable_kv_store.Raft.Cluster.{Rpc, idle, sent, counted, in_flight, Cluster}
use linearizable_kv_store.Raft.Cluster.Ballots.{
  backs, weight, Agrees, Inv, le_lt, le_antisymm, flying_light, flying_sent,
}

weight-update :
    (n : ℕ) (f : ℕ → Rpc) (j : ℕ)
    → j < n
    → weight (f j) ≡ 0
    → sum_below n (λ k. weight (f k)) + 1 ≡ sum_below n (λ k. weight (update f j counted k))
weight-update n f j below light =
    omega (arith, light, sum_below-update n (λ k. weight (f k)) j 1 below, same)
  where
    same :
        sum_below n (λ k. weight (update f j counted k))
        ≡ sum_below n (update (λ k. weight (f k)) j 1)
    same = sum_below_congr n _ _ (λ k. ground arith)

module _ {C : Type 0} ⦃codec : Codec C⦄ where
  Agrees-congr :
      {j n : ℕ} {b b' : ℕ → Option ℕ} {rf : Raft C}
      → ((t : ℕ) → b' t ≡ b t)
      → Agrees j n b rf
      → Agrees j n b' rf
  Agrees-congr e a = record {
    me = a.me;
    peers = a.peers;
    durable = a.durable;
    now = e _ ∙ a.now;
    later = λ t h. e t ∙ a.later t h;
  }

  Granted-Agrees :
      {j n : ℕ} (ballots : ℕ → ℕ → Option ℕ) {args : RequestVoteArgs} {rf rf' : Raft C}
      → Granted rf args rf'
      → Agrees j n (ballots j) rf
      → Agrees j n (put_at j args.term (some args.candidate_id) ballots j) rf'
  Granted-Agrees {j} ballots {args} {rf} {rf'} g a = record {
    me = g.same_me ∙ a.me;
    peers = g.same_peers ∙ a.peers;
    durable = g.durable;
    now = rw (g.at_term, g.vote) (ground arith);
    later = λ t h.
        let h' : args.term < t = rw g.at_term at h in
        let e : ballots j t ≡ none = a.later t (le_lt g.term_grows h') in ground arith;
  }

  -- The history holds no other vote of the term.
  Granted-same :
      {j n v : ℕ} {ballots : ℕ → Option ℕ} {args : RequestVoteArgs} {rf rf' : Raft C}
      → Granted rf args rf'
      → Agrees j n ballots rf
      → ballots args.term ≡ some v
      → ◌≡◌ {A = Option ℕ} (some args.candidate_id) (some v)
  Granted-same {ballots} {args} {rf} g a e = elim (dec_lt rf.current_term args.term) [
    | yes earlier ↦ absurd (none-ne-some _ (sym (a.later args.term earlier) ∙ e))
    | no same ↦
        let t : rf.current_term ≡ args.term = le_antisymm g.term_grows same in
        let v = sym a.now ∙ ap ballots t ∙ e in
        elim (g.was_free t) [ inl w ↦ absurd (none-ne-some _ (sym w ∙ v)) | inr w ↦ sym w ∙ v ]
  ]

  -- Peer `j` casts its vote of term `t` for `c`, and the history of votes records it.
  pub Granted-Inv :
      {n : ℕ} {s : Cluster C} (j : ℕ) (args : RequestVoteArgs) {rf' : Raft C}
      → Granted (s.servers j) args rf'
      → Inv n s
      → Inv n (record s {
        servers = update s.servers j rf';
        ballots = put_at j args.term (some args.candidate_id) s.ballots;
      })
  Granted-Inv {n} {s} j args {rf'} g inv = record {
    agrees = λ k. elim (Bool-cases (j == k)) [
      | inl p ↦ rw p (
          subst (λ k. Agrees k n (put_at j args.term (some args.candidate_id) s.ballots k) rf')
            ((==_iff j k).0 p) (Granted-Agrees s.ballots g (inv.agrees j)))
      | inr p ↦ rw p (Agrees-congr (λ t. ground arith) (inv.agrees k))
    ];
    asked = inv.asked;
    backed = λ a b k h.
        put_at_cases (λ k b v. s.ballots k b ≡ some a → v ≡ some a) s.ballots j args.term
          (some args.candidate_id) (λ e. Granted-same g (inv.agrees j) e) (λ k b _ e. e) k b
          (inv.backed a b k h);
    tally = inv.tally;
    unsent = λ k t x.
        update_cases (λ k rf. rf.current_term < t → s.rpcs k t x ≡ idle) s.servers j rf'
          (λ h. inv.unsent j t x (le_lt g.term_grows (rw g.at_term at h))) (λ k. inv.unsent k t x)
          k;
    led =
        update_cases (λ k rf. rf.role ≡ leader → n < s.votes k rf.current_term * 2) s.servers j rf'
          (λ h. let (l, e) = g.no_new_leader h in subst (λ t. n < s.votes j t * 2) e (inv.led j l))
          inv.led;
  }

  -- A granted vote is counted.
  pub Count-Inv :
      {n : ℕ} {s : Cluster C} (i t j : ℕ)
      → j < n
      → in_flight (s.rpcs i t j) ≡ true
      → s.ballots j t ≡ some i
      → Inv n s
      → Inv n (record s {
        votes = put_at i t (s.votes i t + 1) s.votes;
        rpcs = put_at i t (update (s.rpcs i t) j counted) s.rpcs;
      })
  Count-Inv {n} {s} i t j below flying back inv = record {
    agrees = inv.agrees;
    asked = λ a b k args.
        put_at_cases (λ a b row. row k ≡ sent args → (args.term ≡ b) × (args.candidate_id ≡ a))
          s.rpcs i t _
          (update_cases (λ k x. x ≡ sent args → (args.term ≡ t) × (args.candidate_id ≡ i))
            (s.rpcs i t) j counted (λ e. absurd (ground arith)) (λ k. inv.asked i t k args) k)
          (λ a b _. inv.asked a b k args) a b;
    backed = λ a b k.
        put_at_cases (λ a b row. backs (row k) ≡ true → s.ballots k b ≡ some a) s.rpcs i t _
          (update_cases (λ k x. backs x ≡ true → s.ballots k t ≡ some i) (s.rpcs i t) j counted
            (λ _. back) (inv.backed i t) k)
          (λ a b _. inv.backed a b k) a b;
    tally = λ a b. elim (Bool-cases (a == i && b == t)) [
      | inl p ↦ rw p (
          ap (λ m. m + 1) (inv.tally i t)
          ∙ weight-update n (s.rpcs i t) j below (flying_light (s.rpcs i t j) flying))
      | inr p ↦ rw p (inv.tally a b)
    ];
    unsent = λ a b k.
        put_at_cases (λ a b row. (s.servers a).current_term < b → row k ≡ idle) s.rpcs i t _
          (λ h. absurd (flying_sent _ flying (inv.unsent i t j h))) (λ a b _. inv.unsent a b k) a b;
    led = λ k l.
        put_at_cases (λ a b m. n < s.votes a b * 2 → n < m * 2) s.votes i t _ (λ h. ground arith)
          (λ a b _ h. h) k (s.servers k).current_term (inv.led k l);
  }
