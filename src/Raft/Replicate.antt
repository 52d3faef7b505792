-- ===== src/Raft/Replicate.antt =====
-- raft1/raft.go: the leader's side of replication: Start, what replicateTo sends, and what it does
-- with the replies.
use linearizable_kv_store.Prelude.{
  ℕ, zero, suc, ◌+◌, ◌-◌, Bool, true, false, not, ◌||◌, Option, none, some, List, [], ◌∷◌, ◌++◌,
  length, get_elem?, set, drop, ltb, leb, ◌==◌, if◌then◌else◌,
}
use linearizable_kv_store.Prelude.Panic.{◌>>=◌}
use linearizable_kv_store.Persister.{read_snapshot}
use linearizable_kv_store.Raft.{
  Codec, Raft, AppendEntriesArgs, AppendEntriesReply, InstallSnapshotArgs, InstallSnapshotReply,
}
use linearizable_kv_store.Raft.State.{is_leader, last_log_index, term_at, persist, become_follower}
use linearizable_kv_store.Raft.Commit.{advance_commit}

pub data Outgoing (C : Type 0) : Type 0 where
  send_snapshot : InstallSnapshotArgs → Outgoing C
  send_entries : AppendEntriesArgs C → Outgoing C

-- The index of a new command, -1 if the peer is no leader, with the term and whether it leads.
pub record Started : Type 0 where
  pub index : Option ℕ
  pub term : ℕ
  pub leads : Bool

-- rf.nextIndex[peer] = value, if that is larger
abbrev pub raise : ℕ → ℕ → List ℕ → List ℕ
raise peer value xs = elim (get_elem? xs peer) [
  | none ↦ xs
  | some old ↦ if ltb old value then set xs peer value else xs
]

module _ {C : Type 0} where
  -- The loop that looks back from `index` for the last entry of a term; the inner `none` is -1.
  unfoldable pub last_index_of : Raft C → ℕ → ℕ → Option (Option ℕ)
  last_index_of rf term zero = some none
  last_index_of rf term (suc n) =
      let rest = last_index_of rf term n in
      if ltb rf.last_included_index (suc n)
      then (term_at rf (suc n) >>= λ t. if t == term then some (some (suc n)) else rest)
      else some none

  -- What a leader sends to `peer`; the inner `none` is a peer that no longer leads.
  unfoldable pub replicate_to : ℕ → Raft C → Option (Option (Outgoing C))
  replicate_to peer rf =
      if not (is_leader rf.role)
      then some none
      else (get_elem? rf.next_index peer >>= λ next.
          if leb next rf.last_included_index
          then some (
              some (
                send_snapshot (record {
                  term = rf.current_term;
                  leader_id = rf.me;
                  last_included_index = rf.last_included_index;
                  last_included_term = rf.last_included_term;
                  snapshot = read_snapshot rf.persister;
                })))
          else (term_at rf (next - 1) >>= λ prev_term.
              if ltb (length rf.log) (next - rf.last_included_index)
              then none
              else some (
                  some (
                    send_entries (record {
                      term = rf.current_term;
                      leader_id = rf.me;
                      prev_log_index = next - 1;
                      prev_log_term = prev_term;
                      entries = drop (next - rf.last_included_index) rf.log;
                      leader_commit = rf.commit_index;
                    })))))

  -- The next index after a refusal, at least 1. A conflict index of -1 becomes 1 as well.
  unfoldable pub backed_up : AppendEntriesReply → ℕ → Raft C → Option ℕ
  backed_up reply next rf =
      let at_least_one = λ (x : ℕ). if ltb x 1 then 1 else x in
      elim reply.conflict_term [
        | none ↦ elim reply.conflict_index [
          | some (suc i) ↦ some (suc i)
          | _ ↦ some (at_least_one (if ltb 0 reply.x_len then reply.x_len else next))
        ]
        | some t ↦ last_index_of rf t (last_log_index rf) >>= λ found. elim found [
          | some i ↦ some (i + 1)
          | none ↦ some (elim reply.conflict_index [ none ↦ 1 | some i ↦ at_least_one i ])
        ]
      ]

module _ {C : Type 0} ⦃codec : Codec C⦄ where
  unfoldable pub start : C → Raft C → Raft C × Started
  start command rf =
      if not (is_leader rf.role)
      then (rf, record { index = none; term = rf.current_term; leads = false })
      else (let rf1 = record rf {
        log = rf.log ++ record { term = rf.current_term; command = some command } ∷ [];
      } in
          let index = last_log_index rf1 in
          (
            persist (record rf1 {
              match_index = set rf1.match_index rf1.me index;
              next_index = set rf1.next_index rf1.me (index + 1);
            }),
            record { index = some index; term = rf1.current_term; leads = true },
          ))

  -- The reply to a snapshot that was sent to `peer` in `args.term`.
  unfoldable pub snapshot_replied : ℕ → InstallSnapshotArgs → InstallSnapshotReply → Raft C → Raft C
  snapshot_replied peer args reply rf =
      if not (rf.current_term == args.term) || not (is_leader rf.role)
      then rf
      else if ltb rf.current_term reply.term
      then become_follower reply.term rf
      else record rf {
        next_index = raise peer (args.last_included_index + 1) rf.next_index;
        match_index = raise peer args.last_included_index rf.match_index;
      }

  -- The reply to entries that were sent to `peer` in `args.term`.
  unfoldable pub entries_replied :
      ℕ → AppendEntriesArgs C → AppendEntriesReply → Raft C → Option (Raft C)
  entries_replied peer args reply rf =
      if not (rf.current_term == args.term) || not (is_leader rf.role)
      then some rf
      else if ltb rf.current_term reply.term
      then some (become_follower reply.term rf)
      else if reply.success
      then (let new_match = args.prev_log_index + length args.entries in
          advance_commit (record rf {
            match_index = raise peer new_match rf.match_index;
            next_index = raise peer (new_match + 1) rf.next_index;
          }))
      else (get_elem? rf.next_index peer >>= λ old. backed_up reply old rf >>= λ next.
          some (record rf { next_index = set rf.next_index peer next }))
