-- ===== src/Raft/Install.antt =====
-- raft1/raft.go: InstallSnapshot at the peer that receives it.
use linearizable_kv_store.Prelude.{
  ℕ, ◌+◌, ◌-◌, Option, none, some, List, [], ◌∷◌, drop, ltb, leb, ◌==◌, if◌then◌else◌,
}
use linearizable_kv_store.Prelude.Panic.{◌>>=◌}
use linearizable_kv_store.Raft.{
  follower, LogEntry, Codec, Raft, InstallSnapshotArgs, InstallSnapshotReply,
}
use linearizable_kv_store.Raft.State.{
  sentinel, last_log_index, term_at, persist_with_snapshot, see_term,
}

-- rf.pendingSnapshot = args.Data: an empty slice is not sent, so it is nil at the peer.
unfoldable pub pending_bytes : List ℕ → Option (List ℕ)
pending_bytes [] = none
pending_bytes (byte ∷ bytes) = some (byte ∷ bytes)

module _ {C : Type 0} where
  -- The log that is kept behind the snapshot: what follows a matching entry, or nothing.
  unfoldable pub kept_log : InstallSnapshotArgs → Raft C → Option (List (LogEntry C))
  kept_log args rf =
      if leb args.last_included_index (last_log_index rf)
      then (term_at rf args.last_included_index >>= λ t.
          if t == args.last_included_term
          then some (
              sentinel args.last_included_term
              ∷ drop (args.last_included_index - rf.last_included_index + 1) rf.log)
          else some (sentinel args.last_included_term ∷ []))
      else some (sentinel args.last_included_term ∷ [])

module _ {C : Type 0} ⦃codec : Codec C⦄ where
  unfoldable pub install_snapshot :
      ℕ → InstallSnapshotArgs → Raft C → Option (Raft C × InstallSnapshotReply)
  install_snapshot now args rf =
      if ltb args.term rf.current_term
      then some (rf, record { term = rf.current_term })
      else (let seen = see_term args.term rf in
          let rf1 = record seen { role = follower; last_heard_at = now } in
          let reply : InstallSnapshotReply = record { term = seen.current_term } in
          if leb args.last_included_index rf1.last_included_index
          then some (rf1, reply)
          else (kept_log args rf1 >>= λ log.
              let saved = persist_with_snapshot args.snapshot (record rf1 {
                log = log;
                last_included_index = args.last_included_index;
                last_included_term = args.last_included_term;
                commit_index =
                    if ltb rf1.commit_index args.last_included_index
                    then args.last_included_index
                    else rf1.commit_index;
                last_applied =
                    if ltb rf1.last_applied args.last_included_index
                    then args.last_included_index
                    else rf1.last_applied;
              }) in
              some (
                record saved {
                  pending_snapshot = pending_bytes args.snapshot;
                  pending_snapshot_index = args.last_included_index;
                  pending_snapshot_term = args.last_included_term;
                },
                reply,
              )))
