-- ===== src/Raft/Quiet/Receive.antt =====
-- raft1/raft.go: AppendEntries, InstallSnapshot and Snapshot cast no vote and win no election.
use linearizable_kv_store.Prelude.{
  length, ℕ, ◌+◌, ◌-◌, ◌≡◌, some, List, [], ◌∷◌, refl, arith, ltb, leb, ◌==◌, Bool-cases, inl, inr,
}
use mathlib.Core.Option.{some-injective}
use linearizable_kv_store.Prelude.Panic.{>>=-eq-some}
use linearizable_kv_store.Raft.{
  follower, LogEntry, Codec, Raft, AppendEntriesArgs, AppendEntriesReply, InstallSnapshotArgs,
  InstallSnapshotReply,
}
use linearizable_kv_store.Raft.State.{
  last_log_index, last_log_index, persist, see_term, term_at, take_snapshot,
}
use linearizable_kv_store.Raft.Install.{kept_log, install_snapshot}
use linearizable_kv_store.Raft.Append.{first_index, merge, match_entries, append_entries}
use linearizable_kv_store.Raft.Quiet.{
  Quiet, Quiet-refl, Quiet-trans, see_term-Quiet, volatile-Quiet, raise_commit-Quiet, persist-Quiet,
  result-Quiet, saved-Quiet,
}

module _ {C : Type 0} ⦃codec : Codec C⦄ where
  -- The loop over the entries changes the log alone.
  pub merge-log :
      (index : ℕ) (es : List (LogEntry C)) (rf : Raft C) {rf' : Raft C}
      → merge index es rf ≡ some rf'
      → rf' ≡ record rf { log = rf'.log }
  unfolding merge
  merge-log index [] rf h = rw (← some-injective _ _ h)
  merge-log index (e ∷ es) rf h = elim (Bool-cases (ltb (last_log_index rf) index)) [
    | inl p ↦ ground arith
    | inr p ↦
        let (t, found, rest) = >>=-eq-some (term_at rf index) _ (rw p at h) in
        elim (Bool-cases (t == e.term)) [
          | inl q ↦ merge-log (index + 1) es rf (rw q at rest)
          | inr q ↦ ground arith
        ]
  ]

  match_entries-Quiet :
      (prev prev_term : ℕ) (es : List (LogEntry C)) (lc : ℕ) (reply : AppendEntriesReply)
      (rf : Raft C) {rf' : Raft C} {reply' : AppendEntriesReply}
      → match_entries prev prev_term es lc reply rf ≡ some (rf', reply')
      → Quiet rf rf'
  unfolding match_entries
  match_entries-Quiet prev prev_term es lc reply rf h =
      elim (Bool-cases (ltb (last_log_index rf) prev)) [
        | inl p ↦ result-Quiet rf (rw p at h) (Quiet-refl rf)
        | inr p ↦
            let (t, found, rest) = >>=-eq-some (term_at rf prev) _ (rw p at h) in
            elim (Bool-cases (t == prev_term)) [
              | inr q ↦
                  let (idx, _, last) = >>=-eq-some (first_index rf t prev) _ (rw q at rest) in
                  result-Quiet rf last (Quiet-refl rf)
              | inl q ↦
                  let (rf1, merged, last) = >>=-eq-some (merge (prev + 1) es rf) _ (rw q at rest) in
                  result-Quiet rf last (
                    Quiet-trans (rw (merge-log (prev + 1) es rf merged) (persist-Quiet rf rf1.log))
                      (raise_commit-Quiet lc (persist rf1)))
            ]
      ]

  -- Becoming a follower of a term that has been seen, and hearing from its leader.
  heard-Quiet :
      (term now : ℕ) (rf : Raft C)
      → Quiet rf (record (see_term term rf) { role = follower; last_heard_at = now })
  heard-Quiet term now rf =
      Quiet-trans (see_term-Quiet term rf)
        (volatile-Quiet (see_term term rf) _ refl refl refl refl (λ e. cc))

  -- A peer that has answered AppendEntries keeps its identity and the number of peers, does not
  -- lower its term, keeps its vote while the term stays and has no vote in a later term, is a
  -- leader only if it was one in the same term, and has on disk the term, vote, log and snapshot
  -- indices that it has in memory if that was so before.
  pub append_entries-Quiet :
      (now : ℕ) (args : AppendEntriesArgs C) (rf : Raft C) {rf' : Raft C}
      {reply : AppendEntriesReply}
      → append_entries now args rf ≡ some (rf', reply)
      → Quiet rf rf'
  unfolding append_entries
  append_entries-Quiet now args rf h =
      let rf1 : Raft C = record (see_term args.term rf) { role = follower; last_heard_at = now } in
      elim (Bool-cases (ltb args.term rf.current_term)) [
        | inl p ↦ result-Quiet rf (rw p at h) (Quiet-refl rf)
        | inr p ↦ elim (Bool-cases (ltb args.prev_log_index rf1.last_included_index)) [
          | inl q ↦
              elim (Bool-cases
                (ltb (length args.entries) (rf1.last_included_index - args.prev_log_index))) [
                  | inl r ↦ result-Quiet rf (rw (p, q, r) at h) (
                      Quiet-trans (heard-Quiet args.term now rf)
                        (raise_commit-Quiet args.leader_commit rf1))
                  | inr r ↦
                      Quiet-trans (heard-Quiet args.term now rf)
                        (match_entries-Quiet _ _ _ _ _ rf1 (rw (p, q, r) at h))
                ]
          | inr q ↦
              Quiet-trans (heard-Quiet args.term now rf)
                (match_entries-Quiet _ _ _ _ _ rf1 (rw (p, q) at h))
        ]
      ]

  -- A peer that has answered InstallSnapshot keeps its identity and the number of peers, does not
  -- lower its term, keeps its vote while the term stays and has no vote in a later term, is a
  -- leader only if it was one in the same term, and has on disk the term, vote, log and snapshot
  -- indices that it has in memory if that was so before.
  pub install_snapshot-Quiet :
      (now : ℕ) (args : InstallSnapshotArgs) (rf : Raft C) {rf' : Raft C}
      {reply : InstallSnapshotReply}
      → install_snapshot now args rf ≡ some (rf', reply)
      → Quiet rf rf'
  unfolding install_snapshot
  install_snapshot-Quiet now args rf h =
      let rf1 : Raft C = record (see_term args.term rf) { role = follower; last_heard_at = now } in
      elim (Bool-cases (ltb args.term rf.current_term)) [
        | inl p ↦ result-Quiet rf (rw p at h) (Quiet-refl rf)
        | inr p ↦ elim (Bool-cases (leb args.last_included_index rf1.last_included_index)) [
          | inl q ↦ result-Quiet rf (rw (p, q) at h) (heard-Quiet args.term now rf)
          | inr q ↦
              let (log, _, last) = >>=-eq-some (kept_log args rf1) _ (rw (p, q) at h) in
              result-Quiet rf last (
                Quiet-trans (heard-Quiet args.term now rf) (
                  Quiet-trans (saved-Quiet args.snapshot rf1 _ refl refl refl refl refl)
                    (volatile-Quiet _ _ refl refl refl refl (λ e. e))))
        ]
      ]

  pub take_snapshot-Quiet :
      (index : ℕ) (snapshot : List ℕ) (rf : Raft C) {rf' : Raft C}
      → take_snapshot index snapshot rf ≡ some rf'
      → Quiet rf rf'
  unfolding take_snapshot
  take_snapshot-Quiet index snapshot rf h = elim (Bool-cases (leb index rf.last_included_index)) [
    | inl p ↦ rw (← some-injective _ _ (rw p at h)) (Quiet-refl rf)
    | inr p ↦ elim (Bool-cases (ltb (last_log_index rf) index)) [
      | inl q ↦ rw (← some-injective _ _ (rw (p, q) at h)) (Quiet-refl rf)
      | inr q ↦
          let (t, _, last) = >>=-eq-some (term_at rf index) _ (rw (p, q) at h) in
          rw (← some-injective _ _ last) (saved-Quiet snapshot rf _ refl refl refl refl refl)
    ]
  ]
