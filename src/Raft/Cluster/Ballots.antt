-- ===== src/Raft/Cluster/Ballots.antt =====
-- raft1/raft.go: who has voted for whom in a cluster, as an invariant of its steps.
use linearizable_kv_store.Prelude.{
  ℕ, ◌*◌, ◌≤◌, ◌<◌, ◌≡◌, ◌≢◌, refl, sym, ap, ◌∙◌, subst, Bool, true, false, Option, none, some,
  arith,
}
use native.Mathlib.Decide.{dec_lt}
use linearizable_kv_store.Prelude.Family.{
  update, update_cases, put_at, put_at_cases, sum_below, sum_below_congr,
}
use mathlib.Core.Bool.{false≢true}
use linearizable_kv_store.Raft.{leader, Codec, Raft, RequestVoteArgs}
use linearizable_kv_store.Raft.Quiet.{IsDurable, Quiet}
use linearizable_kv_store.Raft.Cluster.{
  Rpc, idle, sent, replied, dropped, counted, in_flight, Cluster,
}

abbrev pub backs : Rpc → Bool
backs (replied reply) = reply.vote_granted
backs counted = true
backs _ = false

abbrev pub weight : Rpc → ℕ
weight counted = 1
weight _ = 0

pub le_lt : {a b t : ℕ} → a ≤ b → b < t → a < t
le_lt h k = omega arith

pub le_antisymm : {a b : ℕ} → a ≤ b → ¬ (a < b) → a ≡ b
le_antisymm h k = omega arith

pub flying_light : (r : Rpc) → in_flight r ≡ true → weight r ≡ 0
flying_light idle h = absurd (ground arith)
flying_light (sent args) h = refl
flying_light (replied reply) h = refl
flying_light dropped h = absurd (ground arith)
flying_light counted h = absurd (ground arith)

pub flying_sent : (r : Rpc) → in_flight r ≡ true → r ≢ idle
flying_sent r h e = absurd (false≢true (sym (ap in_flight e) ∙ h))

module _ {C : Type 0} ⦃codec : Codec C⦄ where
  -- A peer agrees with the history of its votes.
  pub record Agrees (j n : ℕ) (ballots : ℕ → Option ℕ) (rf : Raft C) : Type 0 where
    pub me : rf.me ≡ j
    pub peers : rf.peers ≡ n
    pub durable : IsDurable rf
    pub now : ballots rf.current_term ≡ rf.voted_for
    pub later : (t : ℕ) → rf.current_term < t → ballots t ≡ none

  pub record Inv (n : ℕ) (s : Cluster C) : Type 0 where
    pub agrees : (j : ℕ) → Agrees j n (s.ballots j) (s.servers j)
    pub asked :
        (i t j : ℕ) (args : RequestVoteArgs)
        → s.rpcs i t j ≡ sent args
        → (args.term ≡ t) × (args.candidate_id ≡ i)
    pub backed : (i t j : ℕ) → backs (s.rpcs i t j) ≡ true → s.ballots j t ≡ some i
    pub tally : (i t : ℕ) → s.votes i t ≡ sum_below n (λ j. weight (s.rpcs i t j))
    pub unsent : (i t j : ℕ) → (s.servers i).current_term < t → s.rpcs i t j ≡ idle
    pub led : (i : ℕ) → (s.servers i).role ≡ leader → n < s.votes i (s.servers i).current_term * 2

  Quiet-Agrees :
      {j n : ℕ} {ballots : ℕ → Option ℕ} {rf rf' : Raft C}
      → Quiet rf rf'
      → Agrees j n ballots rf
      → Agrees j n ballots rf'
  Quiet-Agrees {ballots} {rf} {rf'} q a = record {
    me = q.same_me ∙ a.me;
    peers = q.same_peers ∙ a.peers;
    durable = q.durable a.durable;
    now = elim (dec_lt rf.current_term rf'.current_term) [
      | yes later ↦ a.later rf'.current_term later ∙ sym (q.vote_fresh later)
      | no same ↦ same_term (le_antisymm q.term_grows same)
    ];
    later = λ t h. a.later t (le_lt q.term_grows h);
  }
    where
      same_term : rf.current_term ≡ rf'.current_term → ballots rf'.current_term ≡ rf'.voted_for
      same_term e = ap ballots (sym e) ∙ a.now ∙ sym (q.vote_kept e)

  -- A step that casts no vote.
  pub Quiet-Inv :
      {n : ℕ} {s : Cluster C} (i : ℕ) {rf' : Raft C}
      → Quiet (s.servers i) rf'
      → Inv n s
      → Inv n (record s { servers = update s.servers i rf' })
  Quiet-Inv {n} {s} i {rf'} q inv = record {
    agrees =
        update_cases (λ j rf. Agrees j n (s.ballots j) rf) s.servers i rf'
          (Quiet-Agrees q (inv.agrees i)) inv.agrees;
    asked = inv.asked;
    backed = inv.backed;
    tally = inv.tally;
    unsent = λ k t j.
        update_cases (λ k rf. rf.current_term < t → s.rpcs k t j ≡ idle) s.servers i rf'
          (λ h. inv.unsent i t j (le_lt q.term_grows h)) (λ k. inv.unsent k t j) k;
    led =
        update_cases (λ k rf. rf.role ≡ leader → n < s.votes k rf.current_term * 2) s.servers i rf'
          (λ h. let (l, e) = q.no_new_leader h in subst (λ t. n < s.votes i t * 2) e (inv.led i l))
          inv.led;
  }

  -- The RPC to peer `j` changes, and the votes do not.
  pub Rpc-Inv :
      {n : ℕ} {s : Cluster C} (i t j : ℕ) (r : Rpc)
      → in_flight (s.rpcs i t j) ≡ true
      → ((args : RequestVoteArgs) → r ≢ sent args)
      → weight r ≡ 0
      → (backs r ≡ true → s.ballots j t ≡ some i)
      → Inv n s
      → Inv n (record s { rpcs = put_at i t (update (s.rpcs i t) j r) s.rpcs })
  Rpc-Inv {n} {s} i t j r flying other light back inv = record {
    agrees = inv.agrees;
    asked = λ a b k args.
        put_at_cases (λ a b row. row k ≡ sent args → (args.term ≡ b) × (args.candidate_id ≡ a))
          s.rpcs i t _
          (update_cases (λ k x. x ≡ sent args → (args.term ≡ t) × (args.candidate_id ≡ i))
            (s.rpcs i t) j r (λ e. absurd (other args e)) (λ k. inv.asked i t k args) k)
          (λ a b _. inv.asked a b k args) a b;
    backed = λ a b k.
        put_at_cases (λ a b row. backs (row k) ≡ true → s.ballots k b ≡ some a) s.rpcs i t _
          (update_cases (λ k x. backs x ≡ true → s.ballots k t ≡ some i) (s.rpcs i t) j r back
            (inv.backed i t) k)
          (λ a b _. inv.backed a b k) a b;
    tally =
        put_at_cases (λ a b row. s.votes a b ≡ sum_below n (λ k. weight (row k))) s.rpcs i t _
          (inv.tally i t
            ∙ sum_below_congr n _ _ (λ k. sym (
                update_cases (λ k x. weight x ≡ weight (s.rpcs i t k)) (s.rpcs i t) j r
                  (light ∙ sym (flying_light (s.rpcs i t j) flying)) (λ k. refl) k)))
          (λ a b _. inv.tally a b);
    unsent = λ a b k.
        put_at_cases (λ a b row. (s.servers a).current_term < b → row k ≡ idle) s.rpcs i t _
          (λ h. absurd (flying_sent _ flying (inv.unsent i t j h))) (λ a b _. inv.unsent a b k) a b;
    led = inv.led;
  }
