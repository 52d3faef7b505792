-- ===== src/Raft/Tests.antt =====
-- raft1/raft.go: a cluster of three peers that elects a leader, and the theorems at it.
use linearizable_kv_store.Prelude.{ℕ, ◌≡◌, true, false, none, some, List, [], ◌∷◌, refl, arith}
use linearizable_kv_store.Persister.{make_persister, save, read_raft_state, read_snapshot}
use linearizable_kv_store.Raft.{
  follower, candidate, leader, LogEntry, Raft, RequestVoteArgs, RequestVoteReply, AppendEntriesArgs,
  AppendEntriesReply, InstallSnapshotArgs,
}
use linearizable_kv_store.Raft.State.{
  last_log_index, last_log_term, term_at, persist, persist_with_snapshot, read_persist,
  become_follower, see_term,
}
use linearizable_kv_store.Raft.Vote.{
  may_vote, up_to_date, fill, request_vote, reset_election_timer, start_election, tick,
  become_leader, handle_vote_reply,
}
use linearizable_kv_store.Raft.Apply.{ApplyMsg, deliver, apply_pick, make}
use linearizable_kv_store.Raft.Apply.Order.{Delivers, apply_pick-Delivers}
use linearizable_kv_store.Raft.Cluster.{initial, elect, serve, count, begin, next}
use linearizable_kv_store.Raft.Append.{append_entries, match_entries, merge, raise_commit}
use linearizable_kv_store.Raft.Flat.{flat}
use linearizable_kv_store.Raft.Quiet.{Quiet, recovered}
use linearizable_kv_store.Raft.Quiet.Receive.{append_entries-Quiet}
use linearizable_kv_store.Raft.Quiet.Lead.{restart, Restarted, restart-Restarted}
use linearizable_kv_store.Raft.Quiet.Elect.{Voted, request_vote-Voted}
use linearizable_kv_store.Raft.Append.Merge.{Merged, merge-Merged}
use linearizable_kv_store.Raft.Commit.Highest.{Highest}
use linearizable_kv_store.Raft.State.Recovery.{Recovers, persist-Recovers}
use linearizable_kv_store.Raft.Cluster.Safety.{election_safety}

abbrev fresh : ℕ → Raft ℕ
fresh i = make 0 0 3 i make_persister

-- Peer 0 stands for election, and peer 1 votes for it.
abbrev stood : Raft ℕ
stood = record {
  peers = 3;
  persister = record { raftstate = 1 ∷ 1 ∷ 0 ∷ 0 ∷ 0 ∷ 0 ∷ []; snapshot = [] };
  me = 0;
  dead = false;
  current_term = 1;
  voted_for = some 0;
  log = record { term = 0; command = none } ∷ [];
  last_included_index = 0;
  last_included_term = 0;
  commit_index = 0;
  last_applied = 0;
  next_index = 0 ∷ 0 ∷ 0 ∷ [];
  match_index = 0 ∷ 0 ∷ 0 ∷ [];
  role = candidate;
  last_heard_at = 300;
  election_reset = 200;
  pending_snapshot = none;
  pending_snapshot_index = 0;
  pending_snapshot_term = 0;
}

abbrev voter : Raft ℕ
voter = record stood {
  me = 1;
  persister = record { raftstate = 1 ∷ 1 ∷ 0 ∷ 0 ∷ 0 ∷ 0 ∷ []; snapshot = [] };
  role = follower;
  last_heard_at = 310;
  election_reset = 0;
}

abbrev ask : RequestVoteArgs
ask = record { term = 1; candidate_id = 0; last_log_index = 0; last_log_term = 0 }

abbrev yes_vote : RequestVoteReply
yes_vote = record { term = 1; vote_granted = true }

stands_0 : tick 300 200 (fresh 0) ≡ some (stood, some ask)
unfolding make make_persister read_persist read_raft_state read_snapshot reset_election_timer tick
    start_election persist save last_log_term fill
stands_0 = refl

votes_1 : request_vote 310 ask (fresh 1) ≡ some (voter, yes_vote)
unfolding make make_persister read_persist read_raft_state read_snapshot reset_election_timer
    persist save last_log_term fill request_vote may_vote up_to_date see_term become_follower
votes_1 = refl

-- The vote makes peer 0 the leader.
election_safety_example : ◌≡◌ {A = ℕ} 0 0
unfolding handle_vote_reply become_leader initial
election_safety_example =
    election_safety {C = ℕ} {n = 3} 0 0
      (next
        (next (next begin (elect 0 300 200 ask (omega arith) stands_0))
          (serve 0 1 1 310 ask yes_vote refl votes_1))
        (count 0 1 1 yes_vote (omega arith) refl))
      refl refl refl

request_vote-Voted_example : Voted (fresh 1) ask voter true
request_vote-Voted_example = request_vote-Voted 310 ask (fresh 1) votes_1

-- Peer 0 as the leader, before and after the reply.
abbrev led : Raft ℕ
led = record stood { role = leader; next_index = 1 ∷ 1 ∷ 1 ∷ []; match_index = 0 ∷ 0 ∷ 0 ∷ [] }

restart-Restarted_example : Restarted voter (restart 400 250 voter)
unfolding recovered
restart-Restarted_example = restart-Restarted 400 250 voter refl

abbrev entry : LogEntry ℕ
entry = record { term = 1; command = some 7 }

abbrev push : AppendEntriesArgs ℕ
push = record {
  term = 1;
  leader_id = 0;
  prev_log_index = 0;
  prev_log_term = 0;
  entries = entry ∷ [];
  leader_commit = 0;
}

abbrev pushed : AppendEntriesReply
pushed = record { term = 1; success = true; conflict_term = none; conflict_index = none; x_len = 1 }

abbrev appended : Raft ℕ
appended = record voter {
  log = record { term = 0; command = none } ∷ entry ∷ [];
  last_heard_at = 320;
  persister = record { raftstate = 1 ∷ 1 ∷ 0 ∷ 0 ∷ 0 ∷ 0 ∷ 1 ∷ 8 ∷ []; snapshot = [] };
}

append_entries-Quiet_example : Quiet voter appended
unfolding append_entries match_entries merge raise_commit term_at see_term persist save
    read_snapshot
append_entries-Quiet_example =
    append_entries-Quiet 320 push voter {rf' = appended} {reply = pushed} refl

-- The leader with the command, and with its replica at peer 1.
abbrev leading : Raft ℕ
leading = record led {
  log = record { term = 0; command = none } ∷ entry ∷ [];
  next_index = 2 ∷ 1 ∷ 1 ∷ [];
  match_index = 1 ∷ 0 ∷ 0 ∷ [];
}

abbrev committed : Raft ℕ
committed = record leading {
  next_index = 2 ∷ 2 ∷ 1 ∷ [];
  match_index = 1 ∷ 1 ∷ 0 ∷ [];
  commit_index = 1;
}

abbrev snap : InstallSnapshotArgs
snap = record {
  term = 1;
  leader_id = 0;
  last_included_index = 1;
  last_included_term = 1;
  snapshot = 9 ∷ [];
}

abbrev installed : Raft ℕ
installed = record voter {
  log = record { term = 1; command = none } ∷ [];
  last_included_index = 1;
  last_included_term = 1;
  commit_index = 1;
  last_applied = 1;
  last_heard_at = 330;
  pending_snapshot = some (9 ∷ []);
  pending_snapshot_index = 1;
  pending_snapshot_term = 1;
  persister = record { raftstate = 1 ∷ 1 ∷ 1 ∷ 1 ∷ 1 ∷ 0 ∷ []; snapshot = 9 ∷ [] };
}

-- An entry of a later term in the place of the one that the follower has.
abbrev other_entry : LogEntry ℕ
other_entry = record { term = 2; command = some 8 }

merge-Merged_example :
    (log : List (LogEntry ℕ)) × (merge 1 (other_entry ∷ []) appended
      ≡ some (record appended { log = log }))
    × Merged 1 (other_entry ∷ []) appended.log log
merge-Merged_example = merge-Merged (other_entry ∷ []) 1 1 appended refl (omega arith) (omega arith)

-- The leader when the reply has raised the match index of peer 1.
abbrev replicated : Raft ℕ
replicated = record leading { next_index = 2 ∷ 2 ∷ 1 ∷ []; match_index = 1 ∷ 1 ∷ 0 ∷ [] }

abbrev delivery : ApplyMsg ℕ
delivery = record {
  command_valid = true;
  command = some 7;
  command_index = 1;
  snapshot_valid = false;
  snapshot = [];
  snapshot_term = 0;
  snapshot_index = 0;
}

picks_command : apply_pick committed ≡ some (committed, deliver delivery)
unfolding apply_pick
picks_command = refl

apply_pick-Delivers_example : Delivers committed committed delivery
apply_pick-Delivers_example = apply_pick-Delivers committed picks_command

persist-Recovers_example :
    Recovers installed (read_persist (read_raft_state (persist installed).persister) (fresh 1))
    × Recovers installed (
        read_persist
          (read_raft_state (persist_with_snapshot (9 ∷ []) installed).persister)
          (fresh 1))
    × (read_snapshot (persist installed).persister ≡ read_snapshot installed.persister)
    × (read_snapshot (persist_with_snapshot (9 ∷ []) installed).persister ≡ 9 ∷ [])
persist-Recovers_example = persist-Recovers (9 ∷ []) installed (fresh 1)
