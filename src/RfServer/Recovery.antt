-- ===== src/RfServer/Recovery.antt =====
-- raft1/server.go over raft1/raft.go: a snapshot that the service takes, and a restart from the disk.
use linearizable_kv_store.Prelude.{
  ℕ, ◌+◌, ◌-◌, ◌%◌, ◌<◌, ◌≤◌, ◌≡◌, refl, sym, ◌∙◌, Bool, true, false, Option, none, some, List, [],
  ◌∷◌, get_elem?, drop, leb, if◌then◌else◌, ==_iff,
}
use linearizable_kv_store.Persister.{Persister, read_snapshot, save}
use linearizable_kv_store.Raft.{Codec, Raft}
use linearizable_kv_store.Raft.State.{
  take_snapshot, term_at, last_log_index, persist_with_snapshot, persistent, sentinel,
}
use linearizable_kv_store.Raft.Apply.{ApplyMsg, make}
use linearizable_kv_store.Raft.Quiet.{recovered-encode}
use linearizable_kv_store.Raft.Quiet.Lead.{persistent-make}
use linearizable_kv_store.RfServer.{
  SnapshotCodec, applied, ErrMsg, entry_of, ingest_log, Rfsrv, first_entries, ingest_snap,
  ingest_decoded, command_calls, snapshot_if_due, applier_snap, new_rfsrv, started,
}
use linearizable_kv_store.RfServer.Entries.{
  not_empty, leb-false, ltb-false, set_entry_self, first_entries-read,
}

module _ {C : Type 0} ⦃codec : Codec C⦄ where
  -- What is left of a peer by a snapshot up to an index of its log.
  cut : ℕ → ℕ → Raft C → Raft C
  cut index term rf = record rf {
    log = sentinel term ∷ drop (index - rf.last_included_index + 1) rf.log;
    last_included_index = index;
    last_included_term = term;
  }

  take_snapshot-inside :
      (index term : ℕ) (snapshot : List ℕ) (rf : Raft C)
      → rf.last_included_index < index
      → index ≤ last_log_index rf
      → term_at rf index ≡ some term
      → take_snapshot index snapshot rf ≡ some (persist_with_snapshot snapshot (cut index term rf))
  unfolding take_snapshot cut
  take_snapshot-inside index term snapshot rf above inside found =
      rw
        (
          leb-false index rf.last_included_index above,
          ltb-false (last_log_index rf) index inside,
          found,
        )
        refl

  persist_with_snapshot-make :
      (now randomized peers me : ℕ) (snapshot : List ℕ) (rf : Raft C)
      → persistent {C = C}
          (make now randomized peers me (persist_with_snapshot snapshot rf).persister)
        ≡ persistent rf
  unfolding persist_with_snapshot save
  persist_with_snapshot-make now randomized peers me snapshot rf =
      persistent-make now randomized peers me (persist_with_snapshot snapshot rf).persister
      ∙ recovered-encode (persistent rf)

  persistent-persist_with_snapshot :
      (snapshot : List ℕ) (rf : Raft C)
      → persistent (persist_with_snapshot snapshot rf) ≡ persistent rf
  unfolding persist_with_snapshot
  persistent-persist_with_snapshot snapshot rf = refl

  persisted-snapshot :
      (snapshot : List ℕ) (rf : Raft C)
      → read_snapshot (persist_with_snapshot snapshot rf).persister ≡ snapshot
  unfolding persist_with_snapshot save read_snapshot
  persisted-snapshot snapshot rf = refl

module _ {C : Type 0} ⦃codec : Codec C⦄ (snapshots : SnapshotCodec C) where
  -- What a restart makes of a disk that holds the snapshot `xlog` up to `index`.
  reborn : ℕ → ℕ → ℕ → ℕ → Persister → ℕ → List (Option C) → Rfsrv C
  reborn now randomized peers me ps index xlog = record {
    me = me;
    last_applied = index;
    raft = make now randomized peers me ps;
    log = get_elem? xlog;
  }

  new_rfsrv-snapshot :
      (now randomized peers me : ℕ) (ps : Persister) (index : ℕ) (xlog : List (Option C))
      → read_snapshot ps ≡ snapshots.encode index xlog
      → let rs = reborn now randomized peers me ps index xlog in
        new_rfsrv snapshots now randomized peers me ps true ≡ some (rs, ingest_log rs.log ∷ [])
  unfolding new_rfsrv started ingest_snap ingest_decoded reborn
  new_rfsrv-snapshot now randomized peers me ps index xlog h =
      rw (h, not_empty (snapshots.encode_pos index xlog), snapshots.decode-encode index xlog) refl

  snapshot_if_due-inside :
      (index term : ℕ) (rs : Rfsrv C)
      → (index + 1) % 10 ≡ 0
      → rs.raft.last_included_index < index
      → index ≤ last_log_index rs.raft
      → term_at rs.raft index ≡ some term
      → snapshot_if_due snapshots index rs
        ≡ some (record rs {
          raft =
              persist_with_snapshot
                (snapshots.encode index (first_entries (index + 1) rs.log))
                (cut index term rs.raft);
        })
  unfolding snapshot_if_due
  snapshot_if_due-inside index term rs due above inside found =
      rw
        (
          (==_iff ((index + 1) % 10) 0).1 due,
          take_snapshot-inside index term
              (snapshots.encode index (first_entries (index + 1) rs.log)) rs.raft above inside
              found,
        )
        refl

  applier_snap-command :
      (m : ApplyMsg C) (answer : ErrMsg × Bool) (rs rs' : Rfsrv C)
      → m.snapshot_valid ≡ false
      → m.command_valid ≡ true
      → snapshot_if_due snapshots m.command_index (applied m rs) ≡ some rs'
      → applier_snap snapshots m answer rs ≡ some (rs', command_calls m answer rs.last_applied)
  unfolding applier_snap
  applier_snap-command m answer rs rs' s c h = rw (s, c, h) refl

  -- A command at an index before a multiple of ten, inside the peer's log and above its last snapshot: the
  -- applier takes it into its log and returns, and what is then on disk restarts as it was. A restart
  -- with snapshots returns, with the same last applied index and the same log up to that index, absent
  -- entries being nil there, and nothing after it; it tells the tester that log; and its peer has the
  -- term, the vote, the log and the snapshot's index and term of the peer before.
  pub snapshot-restart :
      (now randomized : ℕ) (m : ApplyMsg C) (answer : ErrMsg × Bool) (term : ℕ) (rs : Rfsrv C)
      → m.snapshot_valid ≡ false
      → m.command_valid ≡ true
      → (m.command_index + 1) % 10 ≡ 0
      → rs.raft.last_included_index < m.command_index
      → m.command_index ≤ last_log_index rs.raft
      → term_at rs.raft m.command_index ≡ some term
      → (rs' : Rfsrv C) × (again : Rfsrv C) × (applier_snap snapshots m answer rs
          ≡ some (rs', command_calls m answer rs.last_applied))
        × (new_rfsrv snapshots now randomized rs.raft.peers rs.me rs'.raft.persister true
            ≡ some (again, ingest_log again.log ∷ []))
        × (rs'.last_applied ≡ m.command_index)
        × (again.last_applied ≡ m.command_index)
        × (entry_of (rs'.log m.command_index) ≡ m.command)
        × ((j : ℕ)
            → again.log j ≡ (if leb j m.command_index then some (entry_of (rs'.log j)) else none))
        × (persistent again.raft ≡ persistent rs'.raft)
  unfolding reborn
  snapshot-restart now randomized m answer term rs sv cv due above inside found =
      let i = m.command_index in
      let xlog = first_entries (i + 1) (applied m rs).log in
      let raft = persist_with_snapshot (snapshots.encode i xlog) (cut i term rs.raft) in
      let taken = snapshot_if_due-inside i term (applied m rs) due above inside found in
      (
        record (applied m rs) { raft = raft },
        reborn now randomized rs.raft.peers rs.me raft.persister i xlog,
        applier_snap-command m answer rs _ sv cv taken,
        new_rfsrv-snapshot now randomized rs.raft.peers rs.me raft.persister i xlog
            (persisted-snapshot (snapshots.encode i xlog) (cut i term rs.raft)),
        refl,
        refl,
        set_entry_self i m.command rs.log,
        first_entries-read i (applied m rs).log,
        persist_with_snapshot-make now randomized rs.raft.peers rs.me (snapshots.encode i xlog)
              (cut i term rs.raft)
            ∙ sym (persistent-persist_with_snapshot (snapshots.encode i xlog) (cut i term rs.raft)),
      )
