-- ===== src/Raft/Vote.antt =====
-- raft1/raft.go: elections, from both sides.
use linearizable_kv_store.Prelude.{
  ℕ, zero, suc, ◌+◌, ◌*◌, Bool, true, false, not, ◌&&◌, ◌||◌, Option, none, some, List, [], ◌∷◌,
  ltb, leb, ◌==◌, if◌then◌else◌, set,
}
use linearizable_kv_store.Prelude.Panic.{◌>>=◌}
use linearizable_kv_store.Raft.{
  Role, candidate, leader, Codec, Raft, RequestVoteArgs, RequestVoteReply,
}
use linearizable_kv_store.Raft.State.{
  is_leader, last_log_index, last_log_term, persist, become_follower, see_term,
}

-- `rf.votedFor == -1 || rf.votedFor == candidate`
unfoldable pub may_vote : Option ℕ → ℕ → Bool
may_vote none candidate_id = true
may_vote (some c) candidate_id = c == candidate_id

abbrev pub is_candidate : Role → Bool
is_candidate candidate = true
is_candidate _ = false

-- The candidate's log is at least as up to date as one that ends in `index` and `term`.
unfoldable pub up_to_date : RequestVoteArgs → ℕ → ℕ → Bool
up_to_date args index term =
    ltb term args.last_log_term || (args.last_log_term == term && leb index args.last_log_index)

-- A slice of `n` equal elements.
unfoldable pub fill : ℕ → ℕ → List ℕ
fill zero x = []
fill (suc n) x = x ∷ fill n x

module _ {C : Type 0} ⦃codec : Codec C⦄ where
  unfoldable pub request_vote : ℕ → RequestVoteArgs → Raft C → Option (Raft C × RequestVoteReply)
  request_vote now args rf =
      if ltb args.term rf.current_term
      then some (rf, record { term = rf.current_term; vote_granted = false })
      else (let rf1 = see_term args.term rf in
          last_log_term rf1 >>= λ my_last_term.
          if may_vote rf1.voted_for args.candidate_id
            && up_to_date args (last_log_index rf1) my_last_term
          then some (
            persist (record rf1 { voted_for = some args.candidate_id; last_heard_at = now }),
            record { term = rf1.current_term; vote_granted = true },
          )
          else some (rf1, record { term = rf1.current_term; vote_granted = false }))

  -- `randomized` is the new timeout, in milliseconds.
  unfoldable pub reset_election_timer : ℕ → ℕ → Raft C → Raft C
  reset_election_timer now randomized rf = record rf {
    last_heard_at = now;
    election_reset = randomized;
  }

  -- The state after the call, and the arguments that go to every other peer.
  unfoldable pub start_election : ℕ → ℕ → Raft C → Option (Raft C × RequestVoteArgs)
  start_election now randomized rf =
      let rf1 = persist (
        reset_election_timer now randomized (record rf {
          role = candidate;
          current_term = rf.current_term + 1;
          voted_for = some rf.me;
        })) in
      last_log_term rf1 >>= λ last_term. some (
        rf1,
        record {
          term = rf1.current_term;
          candidate_id = rf1.me;
          last_log_index = last_log_index rf1;
          last_log_term = last_term;
        },
      )

  -- One round of `ticker`, after its sleep.
  unfoldable pub tick : ℕ → ℕ → Raft C → Option (Raft C × Option RequestVoteArgs)
  tick now randomized rf =
      if not (is_leader rf.role) && leb (rf.last_heard_at + rf.election_reset) now
      then (start_election now randomized rf >>= λ started. some (started.0, some started.1))
      else some (rf, none)

  unfoldable pub become_leader : Raft C → Raft C
  become_leader rf =
      let last = last_log_index rf in
      record rf {
        role = leader;
        next_index = fill rf.peers (last + 1);
        match_index = set (fill rf.peers 0) rf.me last;
      }

  -- A reply to a vote request that was sent in `term`, with the count of votes so far. The result is
  -- the state and the new count.
  unfoldable pub handle_vote_reply : ℕ → ℕ → RequestVoteReply → Raft C → Raft C × ℕ
  handle_vote_reply term votes reply rf =
      if not (rf.current_term == term) || not (is_candidate rf.role)
      then (rf, votes)
      else if ltb rf.current_term reply.term
      then (become_follower reply.term rf, votes)
      else if reply.vote_granted
      then (let n = votes + 1 in
          if ltb rf.peers (n * 2) && is_candidate rf.role then (become_leader rf, n) else (rf, n))
      else (rf, votes)
