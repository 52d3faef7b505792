-- ===== src/Raft/Quiet/Elect.antt =====
-- raft1/raft.go: what the handlers of an election do to a peer's term, vote and role.
use linearizable_kv_store.Prelude.{
  ◌||◌, ◌&&◌, subst, ap, sym, ℕ, ◌+◌, ◌≤◌, ◌<◌, ◌≡◌, Bool, true, false, Option, none, some, refl,
  arith, ◌∙◌, ltb, leb, ◌==◌, Bool-cases, inl, inr, not,
}
use mathlib.Core.Option.{some-injective}
use linearizable_kv_store.Prelude.Panic.{>>=-eq-some}
use linearizable_kv_store.Raft.{candidate, leader, Codec, Raft}
use linearizable_kv_store.Raft.State.{
  is_leader, last_log_index, last_log_index, persistent, persist, become_follower, see_term,
}
use linearizable_kv_store.Raft.Vote.{reset_election_timer}
use linearizable_kv_store.Raft.Quiet.{
  IsDurable, Quiet, Quiet-refl, become_follower-Quiet, see_term-Quiet,
}
use linearizable_kv_store.Raft.{RequestVoteArgs, RequestVoteReply}
use linearizable_kv_store.Prelude.{==_iff, ◌⊎◌, ◌*◌}
use linearizable_kv_store.Raft.State.{last_log_term}
use linearizable_kv_store.Raft.Quiet.{recovered-encode}
use linearizable_kv_store.Raft.Vote.{
  is_candidate, may_vote, up_to_date, request_vote, start_election, tick, become_leader,
  handle_vote_reply,
}

may_vote_cases : (v : Option ℕ) (c : ℕ) → may_vote v c ≡ true → (v ≡ none) ⊎ (v ≡ some c)
unfolding may_vote
may_vote_cases none c p = inl refl
may_vote_cases (some d) c p = inr (ap some ((==_iff d c).0 p))

module _ {C : Type 0} ⦃codec : Codec C⦄ where
  -- A vote is granted for the candidate's term, by a peer that had no other vote in it, and is on
  -- disk when it is granted.
  pub record Granted (rf : Raft C) (args : RequestVoteArgs) (rf' : Raft C) : Type 0 where
    pub same_me : rf'.me ≡ rf.me
    pub same_peers : rf'.peers ≡ rf.peers
    pub at_term : rf'.current_term ≡ args.term
    pub term_grows : rf.current_term ≤ args.term
    pub vote : rf'.voted_for ≡ some args.candidate_id
    pub was_free :
        rf.current_term ≡ args.term
        → (rf.voted_for ≡ none) ⊎ (rf.voted_for ≡ some args.candidate_id)
    pub no_new_leader :
        rf'.role ≡ leader → (rf.role ≡ leader) × (rf.current_term ≡ rf'.current_term)
    pub durable : IsDurable rf'

  pub data Voted (rf : Raft C) (args : RequestVoteArgs) (rf' : Raft C) (granted : Bool)
      : Type 0 where
    grant : granted ≡ true → Granted rf args rf' → Voted rf args rf' granted
    refuse : granted ≡ false → Quiet rf rf' → Voted rf args rf' granted

  see_term-current :
      (term : ℕ) (rf : Raft C)
      → ltb term rf.current_term ≡ false
      → (see_term term rf).current_term ≡ term
  unfolding see_term become_follower persist
  see_term-current term rf p = ground arith

  vote-Granted :
      (now : ℕ) (args : RequestVoteArgs) (rf : Raft C)
      → ltb args.term rf.current_term ≡ false
      → may_vote (see_term args.term rf).voted_for args.candidate_id ≡ true
      → Granted rf args (
          persist (record (see_term args.term rf) {
            voted_for = some args.candidate_id;
            last_heard_at = now;
          }))
  unfolding persist
  vote-Granted now args rf p v = record {
    same_me = q.same_me;
    same_peers = q.same_peers;
    at_term = at;
    term_grows = ground arith;
    vote = refl;
    was_free = λ e. elim (may_vote_cases _ _ v) [
      | inl w ↦ inl (sym (q.vote_kept (e ∙ sym at)) ∙ w)
      | inr w ↦ inr (sym (q.vote_kept (e ∙ sym at)) ∙ w)
    ];
    no_new_leader = q.no_new_leader;
    durable = recovered-encode _;
  }
    where
      q : Quiet rf (see_term args.term rf)
      q = see_term-Quiet args.term rf

      at : (see_term args.term rf).current_term ≡ args.term
      at = see_term-current args.term rf p

  -- A vote request that returns either grants the vote, by a peer of at most the request's term
  -- that had no vote for anyone else in that term, and that then has the vote in memory and on
  -- disk and is no new leader; or it refuses, and the peer keeps its identity, does not lower its
  -- term, keeps its vote while the term stays, has no vote in a later term, is no new leader and
  -- has its state on disk if it had it before.
  pub request_vote-Voted :
      (now : ℕ) (args : RequestVoteArgs) (rf : Raft C) {rf' : Raft C} {reply : RequestVoteReply}
      → request_vote now args rf ≡ some (rf', reply)
      → Voted rf args rf' reply.vote_granted
  unfolding request_vote
  request_vote-Voted now args rf h = elim (Bool-cases (ltb args.term rf.current_term)) [
    | inl p ↦ voted (rw p at h) (refuse refl (Quiet-refl rf))
    | inr p ↦
        let rf1 : Raft C = see_term args.term rf in
        let (t, _, rest) = >>=-eq-some (last_log_term rf1) _ (rw p at h) in
        elim (Bool-cases (may_vote rf1.voted_for args.candidate_id)) [
          | inr v ↦ voted (rw v at rest) (refuse refl (see_term-Quiet args.term rf))
          | inl v ↦ elim (Bool-cases (up_to_date args (last_log_index rf1) t)) [
            | inr u ↦ voted (rw (v, u) at rest) (refuse refl (see_term-Quiet args.term rf))
            | inl u ↦ voted (rw (v, u) at rest) (grant refl (vote-Granted now args rf p v))
          ]
        ]
  ]
    where
      voted :
          {a b : Raft C} {r s : RequestVoteReply}
          → ◌≡◌ {A = Option (Raft C × RequestVoteReply)} (some (a, r)) (some (b, s))
          → Voted rf args a r.vote_granted
          → Voted rf args b s.vote_granted
      voted e v = subst (λ t. Voted rf args t.0 t.1.vote_granted) (some-injective _ _ e) v

  -- A peer that stands for election votes for itself in a new term.
  pub record Stood (rf : Raft C) (rf' : Raft C) (args : RequestVoteArgs) : Type 0 where
    pub same_me : rf'.me ≡ rf.me
    pub same_peers : rf'.peers ≡ rf.peers
    pub next_term : rf'.current_term ≡ rf.current_term + 1
    pub own_vote : rf'.voted_for ≡ some rf.me
    pub stands : rf'.role ≡ candidate
    pub durable : IsDurable rf'
    pub args_term : args.term ≡ rf.current_term + 1
    pub args_candidate : args.candidate_id ≡ rf.me

  start_election-Stood :
      (now randomized : ℕ) (rf : Raft C) {rf' : Raft C} {args : RequestVoteArgs}
      → start_election now randomized rf ≡ some (rf', args)
      → Stood rf rf' args
  unfolding start_election reset_election_timer persist
  start_election-Stood now randomized rf h =
      let (t, _, last) = >>=-eq-some (last_log_term _) _ h in
      subst (λ s. Stood rf s.0 s.1) (some-injective _ _ last)
        (record {
          same_me = refl;
          same_peers = refl;
          next_term = refl;
          own_vote = refl;
          stands = refl;
          durable = recovered-encode _;
          args_term = refl;
          args_candidate = refl;
        })

  pub data Ticked (rf rf' : Raft C) : Option RequestVoteArgs → Type 0 where
    stays : {sent : Option RequestVoteArgs} → sent ≡ none → Quiet rf rf' → Ticked rf rf' sent
    stands :
        {sent : Option RequestVoteArgs} (args : RequestVoteArgs)
        → sent ≡ some args
        → Stood rf rf' args
        → Ticked rf rf' sent

  -- A round of the ticker that returns either sends nothing and leaves the peer's vote, term,
  -- leadership and what is on disk as a handler does that casts no vote; or the peer is a
  -- candidate of the next term that has voted for itself, with that vote on disk, and sends a
  -- request of that term in its own name.
  pub tick-Ticked :
      (now randomized : ℕ) (rf : Raft C) {rf' : Raft C} {sent : Option RequestVoteArgs}
      → tick now randomized rf ≡ some (rf', sent)
      → Ticked rf rf' sent
  unfolding tick
  tick-Ticked now randomized rf h =
      elim (Bool-cases
        (not (is_leader rf.role) && leb (rf.last_heard_at + rf.election_reset) now)) [
          | inr p ↦ ticked (rw p at h) (stays refl (Quiet-refl rf))
          | inl p ↦
              let (started, found, last) =
                >>=-eq-some (start_election now randomized rf) _ (rw p at h) in
              ticked last (stands started.1 refl (start_election-Stood now randomized rf found))
        ]
    where
      ticked :
          {a b : Raft C} {r s : Option RequestVoteArgs}
          → ◌≡◌ {A = Option (Raft C × Option RequestVoteArgs)} (some (a, r)) (some (b, s))
          → Ticked rf a r
          → Ticked rf b s
      ticked e v = subst (λ t. Ticked rf t.0 t.1) (some-injective _ _ e) v

  -- What a vote reply comes to: it is not counted, or it is one more vote for a candidate of `term`,
  -- which leads if the votes are a majority.
  pub data Counted (term votes : ℕ) (granted : Bool) (rf rf' : Raft C) (n : ℕ) : Type 0 where
    ignored : n ≡ votes → Quiet rf rf' → Counted term votes granted rf rf' n
    one_more :
        n ≡ votes + 1
        → granted ≡ true
        → rf.current_term ≡ term
        → rf.role ≡ candidate
        → rf'.me ≡ rf.me
        → rf'.peers ≡ rf.peers
        → persistent rf' ≡ persistent rf
        → rf'.persister ≡ rf.persister
        → (rf'.role ≡ leader → rf.peers < n * 2)
        → Counted term votes granted rf rf' n

  -- A reply to a vote request sent in `term` either leaves the count and casts no vote, or is one
  -- more vote: it was granted, the peer is a candidate of that very term, nothing persistent
  -- changes, and the peer leads after it only if the votes are more than half of the peers.
  pub handle_vote_reply-Counted :
      (term votes : ℕ) (reply : RequestVoteReply) (rf : Raft C)
      → Counted term votes reply.vote_granted rf
          (handle_vote_reply term votes reply rf).0
          (handle_vote_reply term votes reply rf).1
  unfolding handle_vote_reply become_leader
  handle_vote_reply-Counted term votes reply rf =
      elim (Bool-cases (not (rf.current_term == term) || not (is_candidate rf.role))) [
        | inl p ↦ rw p (ignored refl (Quiet-refl rf))
        | inr p ↦ elim (Bool-cases (ltb rf.current_term reply.term)) [
          | inl q ↦ rw (p, q) (ignored refl (become_follower-Quiet reply.term rf))
          | inr q ↦ elim (Bool-cases reply.vote_granted) [
            | inr g ↦ rw (p, q, g) (ignored refl (Quiet-refl rf))
            | inl g ↦ elim (Bool-cases (ltb rf.peers ((votes + 1) * 2) && is_candidate rf.role)) [
              | inl m ↦
                  rw (p, q, g, m)
                    (one_more refl refl (ground arith) (ground arith) refl refl refl refl
                      (λ e. ground arith))
              | inr m ↦
                  rw (p, q, g, m)
                    (one_more refl refl (ground arith) (ground arith) refl refl refl refl
                      (λ e. ground arith))
            ]
          ]
        ]
      ]
