-- ===== src/Raft/State.antt =====
-- raft1/raft.go: the accessors of the log, persistence, and the change to follower.
pub mod Recovery
use linearizable_kv_store.Prelude.{
  ℕ, ◌+◌, ◌-◌, Bool, true, false, Option, none, some, List, ◌∷◌, length, get_elem?, drop, ltb, leb,
  if◌then◌else◌,
}
use linearizable_kv_store.Prelude.Panic.{◌>>=◌}
use linearizable_kv_store.Persister.{save, read_snapshot, raft_state_size}
use linearizable_kv_store.Raft.{Role, follower, leader, LogEntry, Persistent, Codec, Raft}

abbrev pub is_leader : Role → Bool
is_leader leader = true
is_leader _ = false

abbrev pub sentinel : {C : Type 0} → ℕ → LogEntry C
sentinel term = record { term = term; command = none }

abbrev pub term_of : {C : Type 0} → LogEntry C → Option ℕ
term_of e = some e.term

module _ {C : Type 0} where
  -- `rf.log` always has its sentinel, so this is not negative.
  abbrev pub last_log_index : Raft C → ℕ
  last_log_index rf = rf.last_included_index + length rf.log - 1

  unfoldable pub last_log_term : Raft C → Option ℕ
  last_log_term rf = get_elem? rf.log (length rf.log - 1) >>= term_of

  -- An index below `last_included_index` is a negative offset.
  unfoldable pub term_at : Raft C → ℕ → Option ℕ
  term_at rf index =
      if ltb index rf.last_included_index
      then none
      else get_elem? rf.log (index - rf.last_included_index) >>= term_of

  unfoldable pub get_state : Raft C → ℕ × Bool
  get_state rf = (rf.current_term, is_leader rf.role)

  abbrev pub persistent : Raft C → Persistent C
  persistent rf = record {
    current_term = rf.current_term;
    voted_for = rf.voted_for;
    log = rf.log;
    last_included_index = rf.last_included_index;
    last_included_term = rf.last_included_term;
  }

module _ {C : Type 0} ⦃codec : Codec C⦄ where
  unfoldable pub persist_with_snapshot : List ℕ → Raft C → Raft C
  unfolding save
  persist_with_snapshot snapshot rf = record rf {
    persister = save (codec.encode (persistent rf)) snapshot rf.persister;
  }

  unfoldable pub persist : Raft C → Raft C
  unfolding save read_snapshot
  persist rf = record rf {
    persister = save (codec.encode (persistent rf)) (read_snapshot rf.persister) rf.persister;
  }

  restore : Option (Persistent C) → Raft C → Raft C
  restore none rf = rf
  restore (some p) rf = record rf {
    current_term = p.current_term;
    voted_for = p.voted_for;
    log = p.log;
    last_included_index = p.last_included_index;
    last_included_term = p.last_included_term;
    commit_index = p.last_included_index;
    last_applied = p.last_included_index;
  }

  unfoldable pub read_persist : List ℕ → Raft C → Raft C
  unfolding restore
  read_persist bytes rf = if ltb (length bytes) 1 then rf else restore (codec.decode bytes) rf

  unfoldable pub persist_bytes : Raft C → ℕ
  unfolding raft_state_size
  persist_bytes rf = raft_state_size rf.persister

  unfoldable pub become_follower : ℕ → Raft C → Raft C
  become_follower term rf =
      let rf1 = record rf { role = follower } in
      if ltb rf.current_term term
      then persist (record rf1 { current_term = term; voted_for = none })
      else rf1

  -- The start of every handler: a later term makes the peer a follower of that term.
  unfoldable pub see_term : ℕ → Raft C → Raft C
  see_term term rf = if ltb rf.current_term term then become_follower term rf else rf

  -- The service's snapshot up to `index`.
  unfoldable pub take_snapshot : ℕ → List ℕ → Raft C → Option (Raft C)
  take_snapshot index snapshot rf =
      if leb index rf.last_included_index
      then some rf
      else if ltb (last_log_index rf) index
      then some rf
      else do
        term ← term_at rf index
        some (
            persist_with_snapshot snapshot (record rf {
              log = sentinel term ∷ drop (index - rf.last_included_index + 1) rf.log;
              last_included_index = index;
              last_included_term = term;
            }))
