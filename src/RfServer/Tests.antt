-- ===== src/RfServer/Tests.antt =====
-- raft1/server.go and raft1/test.go: the witnesses, with numbers as commands.
use mathlib.Core.Option.{some-injective}
use linearizable_kv_store.Prelude.{
  ℕ, zero, suc, ◌≡◌, ◌↔◌, refl, ap, Bool, true, false, Option, none, some, List, [], ◌∷◌, leb, ◌==◌,
  ==_iff, if◌then◌else◌, arith,
}
use linearizable_kv_store.Raft.{follower, LogEntry, Raft}
use linearizable_kv_store.Raft.State.{persistent, term_at}
use linearizable_kv_store.Raft.Flat.{flat, write_option, read_option, read-write_option}
use linearizable_kv_store.Raft.Apply.{ApplyMsg}
use linearizable_kv_store.RfServer.{
  SnapshotCodec, no_error, LogMap, entry_of, ingest_log, Rfsrv, command_calls, applier_snap,
  new_rfsrv,
}
use linearizable_kv_store.RfServer.Recovery.{snapshot-restart}
use linearizable_kv_store.RfServer.Checker.{Comparable, RaftServer, Test, is_error, n_committed}
use linearizable_kv_store.RfServer.Checker.Agreement.{
  Consistent, Agree, Checked, check_logs-Checked,
}
use linearizable_kv_store.RfServer.Checker.Counted.{holders, n_committed-Agree}

abbrev write_all : List (Option ℕ) → List ℕ
write_all [] = []
write_all (o ∷ os) = write_option o ∷ write_all os

abbrev read_all : List ℕ → List (Option ℕ)
read_all [] = []
read_all (n ∷ ns) = read_option n ∷ read_all ns

read-write_all : (os : List (Option ℕ)) → read_all (write_all os) ≡ os
read-write_all [] = refl
read-write_all (o ∷ os) = rw (read-write_option o, read-write_all os) refl

abbrev decode_flat : List ℕ → Option (ℕ × List (Option ℕ))
decode_flat [] = none
decode_flat (index ∷ rest) = some (index, read_all rest)

abbrev flat_snapshots : SnapshotCodec ℕ
flat_snapshots = record {
  encode = λ index xlog. index ∷ write_all xlog;
  decode = decode_flat;
  decode-encode = λ index xlog. ap (λ os. some (index, os)) (read-write_all xlog);
  encode_pos = λ index xlog. omega arith;
}

abbrev cmd_at : ℕ → LogEntry ℕ
cmd_at c = record { term = 1; command = some c }

-- A peer with nine commands in its log.
abbrev nine : Raft ℕ
nine = record {
  peers = 3;
  persister = record { raftstate = []; snapshot = [] };
  me = 0;
  dead = false;
  current_term = 1;
  voted_for = some 0;
  log =
      record { term = 0; command = none }
      ∷ cmd_at 1
      ∷ cmd_at 2
      ∷ cmd_at 3
      ∷ cmd_at 4
      ∷ cmd_at 5
      ∷ cmd_at 6
      ∷ cmd_at 7
      ∷ cmd_at 8
      ∷ cmd_at 9
      ∷ [];
  last_included_index = 0;
  last_included_term = 0;
  commit_index = 9;
  last_applied = 8;
  next_index = 10 ∷ 0 ∷ 0 ∷ [];
  match_index = 9 ∷ 0 ∷ 0 ∷ [];
  role = follower;
  last_heard_at = 0;
  election_reset = 200;
  pending_snapshot = none;
  pending_snapshot_index = 0;
  pending_snapshot_term = 0;
}

abbrev eight_done : Rfsrv ℕ
eight_done = record {
  me = 0;
  last_applied = 8;
  raft = nine;
  log = λ j. if leb j 8 then some (some j) else none;
}

abbrev ninth : ApplyMsg ℕ
ninth = record {
  command_valid = true;
  command = some 9;
  command_index = 9;
  snapshot_valid = false;
  snapshot = [];
  snapshot_term = 0;
  snapshot_index = 0;
}

snapshot-restart_example :
    (rs' : Rfsrv ℕ) × (again : Rfsrv ℕ) × (applier_snap flat_snapshots ninth
        (no_error, true)
        eight_done
      ≡ some (rs', command_calls ninth (no_error, true) 8))
    × (new_rfsrv flat_snapshots 0 200 3 0 rs'.raft.persister true
        ≡ some (again, ingest_log again.log ∷ []))
    × (rs'.last_applied ≡ 9)
    × (again.last_applied ≡ 9)
    × (entry_of (rs'.log 9) ≡ some 9)
    × ((j : ℕ) → again.log j ≡ (if leb j 9 then some (entry_of (rs'.log j)) else none))
    × (persistent again.raft ≡ persistent rs'.raft)
unfolding term_at
snapshot-restart_example =
    snapshot-restart flat_snapshots 0 200 ninth (no_error, true) 1 eight_done refl refl refl
      (omega arith) (omega arith) refl

same_number : Option ℕ → Option ℕ → Bool
same_number none none = true
same_number (some a) (some b) = a == b
same_number _ _ = false

same_number_iff : (a b : Option ℕ) → (same_number a b ≡ true) ↔ (a ≡ b)
unfolding same_number
same_number_iff none none = (λ h. refl, λ h. refl)
same_number_iff none (some b) = (λ h. absurd (cc), λ h. absurd (cc))
same_number_iff (some a) none = (λ h. absurd (cc), λ h. absurd (cc))
same_number_iff (some a) (some b) =
    (λ h. ap some ((==_iff a b).0 h), λ h. (==_iff a b).1 (some-injective a b h))

instance numbers : Comparable ℕ
numbers = record { same = same_number; same_iff = same_number_iff }

-- A server that has applied nothing yet, and others that have applied one command.
abbrev one_command : LogMap ℕ
one_command j = if j == 1 then some (some 5) else none

abbrev seen : ℕ → RaftServer ℕ
seen zero = record { apply_err = no_error; logs = λ j. none }
seen (suc i) = record { apply_err = no_error; logs = one_command }

abbrev two : Test ℕ
two = record { n = 2; srvs = seen; max_index = 1 }

Consistent-none : (o : Option (Option ℕ)) → Consistent o none
unfolding Consistent
Consistent-none none = tt
Consistent-none (some c) = tt

Consistent-self : (o : Option (Option ℕ)) → Consistent o o
unfolding Consistent
Consistent-self none = tt
Consistent-self (some c) = refl

two-Agree : Agree two
two-Agree zero b index la lb = unfold Consistent in tt
two-Agree (suc a) zero index la lb = Consistent-none (one_command index)
two-Agree (suc a) (suc b) index la lb = Consistent-self (one_command index)

two-fine : (i : ℕ) → is_error (seen i).apply_err ≡ false
two-fine zero = refl
two-fine (suc i) = refl

abbrev first_command : ApplyMsg ℕ
first_command = record ninth { command = some 5; command_index = 1 }

check_logs-Checked_example : Checked 0 first_command two
check_logs-Checked_example = check_logs-Checked 0 first_command two two-Agree

n_committed-Agree_example :
    (cmd : Option ℕ) × (n_committed 1 two ≡ some (holders 2 1 seen, cmd))
    × Consistent ((seen 1).logs 1) (some cmd)
n_committed-Agree_example = n_committed-Agree 1 two 1 two-Agree two-fine (omega arith)
