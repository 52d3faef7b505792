-- ===== src/Raft/Cluster/Elected.antt =====
-- raft1/raft.go: elections and the serving of votes keep the invariant of the votes.
use linearizable_kv_store.Prelude.{
  ℕ, ◌+◌, ◌<◌, ◌≡◌, ◌≢◌, inl, inr, refl, sym, ap, ◌∙◌, subst, Bool, true, some, ◌==◌, ==_iff,
  if◌then◌else◌, ◌&&◌, arith, Bool-cases,
}
use mathlib.Core.Bool.{false≢true}
use linearizable_kv_store.Prelude.Family.{
  update, put_at, put_at_cases, sum_below, sum_below-update, sum_below_congr, sum_below-zero,
}
use linearizable_kv_store.Raft.{candidate, leader, Codec, Raft, RequestVoteArgs, RequestVoteReply}
use linearizable_kv_store.Raft.Quiet.Elect.{Granted, Voted, grant, refuse, Stood}
use linearizable_kv_store.Raft.Cluster.{idle, sent, replied, in_flight, Cluster, send_all}
use linearizable_kv_store.Raft.Cluster.Ballots.{backs, weight, Inv, Quiet-Inv, Rpc-Inv}
use linearizable_kv_store.Raft.Cluster.Count.{put_at-same}
use linearizable_kv_store.Raft.Cluster.Cast.{Granted-Inv}

update-same {ℓ} : {A : Type ℓ} (f : ℕ → A) (i : ℕ) (x : A) → update f i x i ≡ x
update-same f i x = rw ((==_iff i i).1 refl) refl

send_all-sent :
    (n i : ℕ) (args : RequestVoteArgs) (k : ℕ) (x : RequestVoteArgs)
    → send_all n i args k ≡ sent x
    → args ≡ x
send_all-sent n i args k x h = ground arith

send_all-backs :
    (n i : ℕ) (args : RequestVoteArgs) (k : ℕ) → backs (send_all n i args k) ≡ true → i ≡ k
send_all-backs n i args k h = ground arith

send_all-weight :
    (n i : ℕ) (args : RequestVoteArgs) → i < n → 1 ≡ sum_below n (λ k. weight (send_all n i args k))
send_all-weight n i args below =
    omega
      (arith, sum_below-update n (λ k. 0) i 1 below, sum_below-zero n (λ k. 0) (λ k. refl), same)
  where
    same : sum_below n (λ k. weight (send_all n i args k)) ≡ sum_below n (update (λ k. 0) i 1)
    same = sum_below_congr n _ _ (λ k. ground arith)

candidate_ne : candidate ≢ leader
candidate_ne e = cc

not_later : {a b : ℕ} → a ≡ b → ¬ (a < b)
not_later e h = omega arith

module _ {C : Type 0} ⦃codec : Codec C⦄ where
  Stood-Granted :
      {rf rf' : Raft C} {args : RequestVoteArgs} → Stood rf rf' args → Granted rf args rf'
  Stood-Granted {rf} {rf'} {args} s = record {
    same_me = s.same_me;
    same_peers = s.same_peers;
    at_term = s.next_term ∙ sym s.args_term;
    term_grows = rw s.args_term (omega arith);
    vote = s.own_vote ∙ ap some (sym s.args_candidate);
    was_free = λ e. absurd (same_term e s.args_term);
    no_new_leader = λ e. absurd (candidate_ne (sym s.stands ∙ e));
    durable = s.durable;
  }
    where
      same_term : {a b : ℕ} → a ≡ b → b ≢ a + 1
      same_term e f = omega arith

  -- A candidate that has voted for itself sends its requests.
  Elect-Inv :
      {n : ℕ} {s : Cluster C} (i : ℕ) (args : RequestVoteArgs)
      → i < n
      → (s.servers i).role ≡ candidate
      → (s.servers i).current_term ≡ args.term
      → s.ballots i args.term ≡ some i
      → args.candidate_id ≡ i
      → Inv n s
      → Inv n (record s {
        votes = put_at i args.term 1 s.votes;
        rpcs = put_at i args.term (send_all n i args) s.rpcs;
      })
  Elect-Inv {n} {s} i args below stood at own self inv = record {
    agrees = inv.agrees;
    asked = λ a b k x.
        put_at_cases (λ a b row. row k ≡ sent x → (x.term ≡ b) × (x.candidate_id ≡ a)) s.rpcs i
          args.term _
          (λ h.
            subst (λ y. (y.term ≡ args.term) × (y.candidate_id ≡ i)) (send_all-sent n i args k x h)
              (refl, self))
          (λ a b _. inv.asked a b k x) a b;
    backed = λ a b k.
        put_at_cases (λ a b row. backs (row k) ≡ true → s.ballots k b ≡ some a) s.rpcs i args.term _
          (λ h. subst (λ y. s.ballots y args.term ≡ some i) (send_all-backs n i args k h) own)
          (λ a b _. inv.backed a b k) a b;
    tally = λ a b. elim (Bool-cases (a == i && b == args.term)) [
      | inl p ↦ rw p (send_all-weight n i args below)
      | inr p ↦ rw p (inv.tally a b)
    ];
    unsent = λ a b k.
        put_at_cases (λ a b row. (s.servers a).current_term < b → row k ≡ idle) s.rpcs i args.term _
          (λ h. absurd (not_later at h)) (λ a b _. inv.unsent a b k) a b;
    led = λ k l. elim (Bool-cases (k == i)) [
      | inl p ↦ absurd (not_leader k ((==_iff k i).0 p) l)
      | inr p ↦ rw p (inv.led k l)
    ];
  }
    where
      not_leader : (k : ℕ) → k ≡ i → (s.servers k).role ≢ leader
      not_leader k e l =
          absurd
            (candidate_ne (sym (subst (λ k. (s.servers k).role ≡ candidate) (sym e) stood) ∙ l))

  pub Elected-Inv :
      {n : ℕ} {s : Cluster C} (i : ℕ) (args : RequestVoteArgs) {rf' : Raft C}
      → i < n
      → Stood (s.servers i) rf' args
      → Inv n s
      → Inv n (record {
        servers = update s.servers i rf';
        votes = put_at i args.term 1 s.votes;
        rpcs = put_at i args.term (send_all n i args) s.rpcs;
        ballots = put_at i args.term (some i) s.ballots;
      })
  Elected-Inv {n} {s} i args {rf'} below st inv =
      Elect-Inv i args below (ap (λ (rf : Raft C). rf.role) same ∙ st.stands)
        (ap (λ (rf : Raft C). rf.current_term) same ∙ st.next_term ∙ sym st.args_term)
        (put_at-same s.ballots i args.term (some i) refl refl) self
        (subst
          (λ c. Inv n (record s {
            servers = update s.servers i rf';
            ballots = put_at i args.term (some c) s.ballots;
          }))
          self (Granted-Inv i args (Stood-Granted st) inv))
    where
      self : args.candidate_id ≡ i
      self = st.args_candidate ∙ (inv.agrees i).me

      same : update s.servers i rf' i ≡ rf'
      same = update-same s.servers i rf'

  pub Served-Inv :
      {n : ℕ} {s : Cluster C} (i t j : ℕ) (args : RequestVoteArgs) {rf' : Raft C}
      (reply : RequestVoteReply)
      → s.rpcs i t j ≡ sent args
      → Voted (s.servers j) args rf' reply.vote_granted
      → Inv n s
      → Inv n (record s {
        servers = update s.servers j rf';
        rpcs = put_at i t (update (s.rpcs i t) j (replied reply)) s.rpcs;
        ballots =
            if reply.vote_granted
            then put_at j args.term (some args.candidate_id) s.ballots
            else s.ballots;
      })
  Served-Inv {n} {s} i t j args {rf'} reply found v inv = elim v [
    | grant g granted ↦ subst after (sym g) (
        Rpc-Inv i t j (replied reply) (ap in_flight found) (λ args e. absurd (ground arith)) refl
          (λ _.
            put_at-same s.ballots j args.term (some args.candidate_id) refl asked.0
            ∙ ap some asked.1)
          (Granted-Inv j args granted inv))
    | refuse g q ↦ subst after (sym g) (
        Rpc-Inv i t j (replied reply) (ap in_flight found) (λ args e. absurd (ground arith)) refl
          (λ e. absurd (false≢true (sym g ∙ e))) (Quiet-Inv j q inv))
  ]
    where
      asked : (args.term ≡ t) × (args.candidate_id ≡ i)
      asked = inv.asked i t j args found

      after : Bool → Type 0
      after granted = Inv n (record s {
        servers = update s.servers j rf';
        rpcs = put_at i t (update (s.rpcs i t) j (replied reply)) s.rpcs;
        ballots =
            if granted then put_at j args.term (some args.candidate_id) s.ballots else s.ballots;
      })
