-- ===== src/Raft/State/Recovery.antt =====
-- raft1/raft.go: persist, and readPersist after a restart.
use linearizable_kv_store.Prelude.{ℕ, ◌<◌, ◌≡◌, refl, List, ltb, false, arith}
use linearizable_kv_store.Persister.{save, read_raft_state, read_snapshot}
use linearizable_kv_store.Raft.{Codec, Raft}
use linearizable_kv_store.Raft.State.{
  persistent, persist, persist_with_snapshot, read_persist, restore,
}

not_empty : {n : ℕ} → 0 < n → ltb n 1 ≡ false
not_empty h = ground arith

module _ {C : Type 0} ⦃codec : Codec C⦄ where
  -- The persistent fields are those of `rf`, and nothing after the snapshot is known to be committed
  -- or has been applied.
  pub record Recovers (rf rf' : Raft C) : Type 0 where
    pub same : persistent rf' ≡ persistent rf
    pub commit : rf'.commit_index ≡ rf.last_included_index
    pub applied : rf'.last_applied ≡ rf.last_included_index

  encode-Recovers :
      (rf rf0 : Raft C) → Recovers rf (read_persist (codec.encode (persistent rf)) rf0)
  unfolding read_persist restore
  encode-Recovers rf rf0 =
      rw (not_empty (codec.encode_pos (persistent rf)), codec.decode-encode (persistent rf))
        (record { same = refl; commit = refl; applied = refl })

  -- Whatever peer reads what `persist` or `persistWithSnapshot` wrote for `rf` has the persistent
  -- fields of `rf`, with its commit index and last applied index at the snapshot's; persist leaves the
  -- snapshot on disk as it was, and persistWithSnapshot replaces it.
  pub persist-Recovers :
      (snapshot : List ℕ) (rf rf0 : Raft C)
      → Recovers rf (read_persist (read_raft_state (persist rf).persister) rf0)
        × Recovers rf
            (read_persist (read_raft_state (persist_with_snapshot snapshot rf).persister) rf0)
        × (read_snapshot (persist rf).persister ≡ read_snapshot rf.persister)
        × (read_snapshot (persist_with_snapshot snapshot rf).persister ≡ snapshot)
  unfolding persist persist_with_snapshot save read_raft_state read_snapshot
  persist-Recovers snapshot rf rf0 = (encode-Recovers rf rf0, encode-Recovers rf rf0, refl, refl)
