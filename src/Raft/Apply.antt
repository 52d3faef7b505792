-- ===== src/Raft/Apply.antt =====
-- raft1/raft.go and raftapi/raftapi.go: the goroutine that hands committed commands and snapshots to
-- the service, Kill, and the start of a peer.
pub mod Order
use linearizable_kv_store.Prelude.{
  ℕ, ◌+◌, ◌-◌, Bool, true, false, ◌&&◌, Option, none, some, List, [], ◌∷◌, length, get_elem?, ltb,
  leb, if◌then◌else◌,
}
use linearizable_kv_store.Prelude.Panic.{◌>>=◌}
use linearizable_kv_store.Persister.{Persister, read_raft_state, read_snapshot}
use linearizable_kv_store.Raft.{follower, Codec, Raft}
use linearizable_kv_store.Raft.State.{sentinel, read_persist}
use linearizable_kv_store.Raft.Vote.{fill, reset_election_timer}

pub record ApplyMsg (C : Type 0) : Type 0 where
  pub command_valid : Bool
  pub command : Option C
  pub command_index : ℕ
  pub snapshot_valid : Bool
  pub snapshot : List ℕ
  pub snapshot_term : ℕ
  pub snapshot_index : ℕ

-- What one round of the applier's loop comes to before it unlocks or waits.
pub data Picked (C : Type 0) : Type 0 where
  deliver : ApplyMsg C → Picked C
  again : Picked C
  wait : Picked C

module _ {C : Type 0} where
  snapshot_msg : List ℕ → Raft C → ApplyMsg C
  snapshot_msg bytes rf = record {
    command_valid = false;
    command = none;
    command_index = 0;
    snapshot_valid = true;
    snapshot = bytes;
    snapshot_term = rf.pending_snapshot_term;
    snapshot_index = rf.pending_snapshot_index;
  }

  command_msg : Option C → ℕ → ApplyMsg C
  command_msg command index = record {
    command_valid = true;
    command = command;
    command_index = index;
    snapshot_valid = false;
    snapshot = [];
    snapshot_term = 0;
    snapshot_index = 0;
  }

  pick_command : Raft C → Option (Raft C × Picked C)
  unfolding command_msg
  pick_command rf =
      let next = rf.last_applied + 1 in
      if ltb rf.last_applied rf.commit_index && leb rf.last_included_index rf.last_applied
      then (if leb next rf.last_included_index
          then some (record rf { last_applied = rf.last_included_index }, again)
          else (get_elem? rf.log (next - rf.last_included_index) >>= λ entry.
              some (rf, deliver (command_msg entry.command next))))
      else some (rf, wait)

  unfoldable pub apply_pick : Raft C → Option (Raft C × Picked C)
  unfolding snapshot_msg pick_command
  apply_pick rf = elim rf.pending_snapshot [
    | some bytes ↦ some (record rf { pending_snapshot = none }, deliver (snapshot_msg bytes rf))
    | none ↦ pick_command rf
  ]

  -- After the message has been taken from the channel, under the lock again.
  unfoldable pub apply_done : ApplyMsg C → Raft C → Raft C
  apply_done msg rf =
      let index = if msg.snapshot_valid then msg.snapshot_index else msg.command_index in
      if ltb rf.last_applied index then record rf { last_applied = index } else rf

  unfoldable pub kill : Raft C → Raft C
  kill rf = record rf { dead = true }

  blank : ℕ → ℕ → Persister → Raft C
  blank peers me persister = record {
    peers = peers;
    persister = persister;
    me = me;
    dead = false;
    current_term = 0;
    voted_for = none;
    log = sentinel 0 ∷ [];
    last_included_index = 0;
    last_included_term = 0;
    commit_index = 0;
    last_applied = 0;
    next_index = fill peers 0;
    match_index = fill peers 0;
    role = follower;
    last_heard_at = 0;
    election_reset = 0;
    pending_snapshot = none;
    pending_snapshot_index = 0;
    pending_snapshot_term = 0;
  }

  queue_snapshot : Raft C → Raft C
  queue_snapshot rf =
      let snap = read_snapshot rf.persister in
      if ltb 0 rf.last_included_index && ltb 0 (length snap)
      then record rf {
        pending_snapshot = some snap;
        pending_snapshot_index = rf.last_included_index;
        pending_snapshot_term = rf.last_included_term;
      }
      else rf

module _ {C : Type 0} ⦃codec : Codec C⦄ where
  unfoldable pub make : ℕ → ℕ → ℕ → ℕ → Persister → Raft C
  unfolding blank queue_snapshot read_snapshot
  make now randomized peers me persister = queue_snapshot (
      reset_election_timer now randomized
        (read_persist (read_raft_state persister) (blank peers me persister)))
