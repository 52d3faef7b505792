-- ===== src/Raft/Append.antt =====
-- raft1/raft.go: AppendEntries at the peer that receives it.
pub mod Merge
use linearizable_kv_store.Prelude.{
  ℕ, zero, suc, ◌+◌, ◌-◌, true, false, Option, none, some, List, [], ◌∷◌, ◌++◌, length, take, drop,
  ltb, ◌==◌, if◌then◌else◌, not,
}
use linearizable_kv_store.Prelude.Panic.{◌>>=◌}
use linearizable_kv_store.Raft.{
  follower, LogEntry, Codec, Raft, AppendEntriesArgs, AppendEntriesReply,
}
use linearizable_kv_store.Raft.State.{last_log_index, term_at, persist, see_term}

module _ {C : Type 0} where
  -- The commit index that a leader's commit index leads to.
  unfoldable pub raise_commit : ℕ → Raft C → Raft C
  raise_commit leader_commit rf =
      if ltb rf.commit_index leader_commit
      then (let last = last_log_index rf in
          let new_commit = if ltb last leader_commit then last else leader_commit in
          if ltb rf.commit_index new_commit then record rf { commit_index = new_commit } else rf)
      else rf

  -- The loop that goes back from `idx` to the first index of `term`.
  unfoldable pub first_index : Raft C → ℕ → ℕ → Option ℕ
  first_index rf term zero = some zero
  first_index rf term (suc i) =
      let rest = first_index rf term i in
      if ltb rf.last_included_index (suc i)
      then (term_at rf i >>= λ t. if t == term then rest else some (suc i))
      else some (suc i)

  -- The loop over `args.Entries`, from the absolute index `index` on.
  unfoldable pub merge : ℕ → List (LogEntry C) → Raft C → Option (Raft C)
  merge index [] rf = some rf
  merge index (e ∷ es) rf =
      let rest = merge (index + 1) es rf in
      if ltb (last_log_index rf) index
      then some (record rf { log = rf.log ++ e ∷ es })
      else (term_at rf index >>= λ t.
          if not (t == e.term)
          then some (record rf { log = take (index - rf.last_included_index) rf.log ++ e ∷ es })
          else rest)

module _ {C : Type 0} ⦃codec : Codec C⦄ where
  -- From the check of the entry at `prev` on.
  unfoldable pub match_entries :
      ℕ
      → ℕ
      → List (LogEntry C)
      → ℕ
      → AppendEntriesReply
      → Raft C
      → Option (Raft C × AppendEntriesReply)
  match_entries prev prev_term entries leader_commit reply rf =
      if ltb (last_log_index rf) prev
      then some
          (rf, record reply { conflict_index = some (last_log_index rf + 1); conflict_term = none })
      else (term_at rf prev >>= λ t.
          if not (t == prev_term)
          then (first_index rf t prev >>= λ idx.
              some (rf, record reply { conflict_term = some t; conflict_index = some idx }))
          else (merge (prev + 1) entries rf >>= λ rf1.
              some (raise_commit leader_commit (persist rf1), record reply { success = true })))

  unfoldable pub append_entries :
      ℕ → AppendEntriesArgs C → Raft C → Option (Raft C × AppendEntriesReply)
  append_entries now args rf =
      let reply : AppendEntriesReply = record {
        term = rf.current_term;
        success = false;
        conflict_term = none;
        conflict_index = none;
        x_len = last_log_index rf + 1;
      } in
      if ltb args.term rf.current_term
      then some (rf, reply)
      else (let seen = see_term args.term rf in
          let rf1 = record seen { role = follower; last_heard_at = now } in
          let reply1 = record reply { term = seen.current_term } in
          let start_at = rf1.last_included_index - args.prev_log_index in
          if ltb args.prev_log_index rf1.last_included_index
          then (if ltb (length args.entries) start_at
              then some (raise_commit args.leader_commit rf1, record reply1 { success = true })
              else match_entries rf1.last_included_index rf1.last_included_term
                  (drop start_at args.entries) args.leader_commit reply1 rf1)
          else match_entries args.prev_log_index args.prev_log_term args.entries args.leader_commit
              reply1 rf1)
