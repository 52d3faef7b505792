-- ===== src/Persister.antt =====
-- tester1/persister.go: the storage that survives a restart. A Go slice that is cloned is a value here.
use linearizable_kv_store.Prelude.{ℕ, List, [], length}

pub record Persister : Type 0 where
  pub raftstate : List ℕ
  pub snapshot : List ℕ

unfoldable pub make_persister : Persister
make_persister = record { raftstate = []; snapshot = [] }

unfoldable pub checkpoint : Persister → Persister
checkpoint ps = record { raftstate = ps.raftstate; snapshot = ps.snapshot }

unfoldable pub read_raft_state : Persister → List ℕ
read_raft_state ps = ps.raftstate

unfoldable pub raft_state_size : Persister → ℕ
raft_state_size ps = length ps.raftstate

-- Both parts at once.
unfoldable pub save : List ℕ → List ℕ → Persister → Persister
save raftstate snapshot ps = record { raftstate = raftstate; snapshot = snapshot }

unfoldable pub read_snapshot : Persister → List ℕ
read_snapshot ps = ps.snapshot

unfoldable pub snapshot_size : Persister → ℕ
snapshot_size ps = length ps.snapshot
