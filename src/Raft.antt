-- ===== src/Raft.antt =====
-- raft1/raft.go: one Raft peer. `rf.mu` is held over each handler, so a handler is one step from a
-- state to the next; `none` is a Go panic. An int that is -1 for "none" is an `Option`. Signals of
-- `applyCond` and the goroutines that a handler starts have no state of their own: what they run are
-- steps of their own. The clock and the random election timeout are arguments.
pub mod State
pub mod Vote
pub mod Append
pub mod Install
pub mod Commit
pub mod Replicate
pub mod Apply
pub mod Quiet
pub mod Cluster
pub mod Flat
mod Tests
use linearizable_kv_store.Prelude.{ℕ, Bool, Option, none, some, List, ◌≡◌, ◌<◌, length}
use linearizable_kv_store.Persister.{Persister}

pub data Role : Type 0 where
  follower candidate leader : Role

-- A command is any value of a type `C`; the sentinel at the head of a log has none.
pub record LogEntry (C : Type 0) : Type 0 where
  pub term : ℕ
  pub command : Option C

-- What `persist` encodes, in its order.
pub record Persistent (C : Type 0) : Type 0 where
  pub current_term : ℕ
  pub voted_for : Option ℕ
  pub log : List (LogEntry C)
  pub last_included_index : ℕ
  pub last_included_term : ℕ

-- labgob's Encode and Decode of those five values, on top of encoding/gob: decoding what was encoded
-- gives it back, and an encoding is not empty.
pub record Codec (C : Type 0) : Type 0 where
  pub encode : Persistent C → List ℕ
  pub decode : List ℕ → Option (Persistent C)
  pub decode-encode : (p : Persistent C) → decode (encode p) ≡ some p
  pub encode_pos : (p : Persistent C) → 0 < length (encode p)

pub record Raft (C : Type 0) : Type 0 where
  pub peers : ℕ  -- len(rf.peers)
  pub persister : Persister
  pub me : ℕ
  pub dead : Bool
  pub current_term : ℕ
  pub voted_for : Option ℕ
  pub log : List (LogEntry C)
  pub last_included_index : ℕ
  pub last_included_term : ℕ
  pub commit_index : ℕ
  pub last_applied : ℕ
  pub next_index : List ℕ
  pub match_index : List ℕ
  pub role : Role
  pub last_heard_at : ℕ
  pub election_reset : ℕ
  pub pending_snapshot : Option (List ℕ)
  pub pending_snapshot_index : ℕ
  pub pending_snapshot_term : ℕ

pub record RequestVoteArgs : Type 0 where
  pub term : ℕ
  pub candidate_id : ℕ
  pub last_log_index : ℕ
  pub last_log_term : ℕ

pub record RequestVoteReply : Type 0 where
  pub term : ℕ
  pub vote_granted : Bool

pub record AppendEntriesArgs (C : Type 0) : Type 0 where
  pub term : ℕ
  pub leader_id : ℕ
  pub prev_log_index : ℕ
  pub prev_log_term : ℕ
  pub entries : List (LogEntry C)
  pub leader_commit : ℕ

pub record AppendEntriesReply : Type 0 where
  pub term : ℕ
  pub success : Bool
  pub conflict_term : Option ℕ
  pub conflict_index : Option ℕ
  pub x_len : ℕ

pub record InstallSnapshotArgs : Type 0 where
  pub term : ℕ
  pub leader_id : ℕ
  pub last_included_index : ℕ
  pub last_included_term : ℕ
  pub snapshot : List ℕ  -- Data

pub record InstallSnapshotReply : Type 0 where
  pub term : ℕ
