-- ===== src/RfServer.antt =====
-- raft1/server.go: the service that a Raft test runs over a peer. It hands each committed command to the
-- tester, keeps a log of them, and takes a snapshot of that log at every tenth index. What it tells the
-- tester is a list of calls, and the tester's answer to CheckLogs an argument. `none` is a panic or
-- log.Fatalf.
pub mod Entries
pub mod Recovery
pub mod Checker
mod Tests
use linearizable_kv_store.Prelude.{
  ℕ, zero, suc, ◌+◌, ◌%◌, ◌<◌, ◌≡◌, Bool, true, false, not, ◌&&◌, Option, none, some, List, [], ◌∷◌,
  ◌++◌, String, length, get_elem?, ltb, ◌==◌, if◌then◌else◌,
}
use linearizable_kv_store.Prelude.Panic.{◌>>=◌}
use linearizable_kv_store.Persister.{Persister, read_snapshot}
use linearizable_kv_store.Raft.{Codec, Raft}
use linearizable_kv_store.Raft.State.{take_snapshot, get_state}
use linearizable_kv_store.Raft.Replicate.{Started, start}
use linearizable_kv_store.Raft.Apply.{ApplyMsg, make}

-- labgob, for an int and then a []any, of which some may be nil: decoding gives back what was encoded, and
-- an encoding is not empty.
pub record SnapshotCodec (C : Type 0) : Type 0 where
  pub encode : ℕ → List (Option C) → List ℕ
  pub decode : List ℕ → Option (ℕ × List (Option C))
  pub decode-encode :
      (index : ℕ) (xlog : List (Option C)) → decode (encode index xlog) ≡ some (index, xlog)
  pub encode_pos : (index : ℕ) (xlog : List (Option C)) → 0 < length (encode index xlog)

-- The error texts; "" is `no_error`. CheckLogs reports an index, a server and one in conflict with it.
pub data ErrMsg : Type 0 where
  no_error : ErrMsg
  err_rpc : ErrMsg
  conflict : (index server other : ℕ) → ErrMsg
  out_of_order : ℕ → ErrMsg
  not_next : (expected got : ℕ) → ErrMsg
  nil_snapshot : ErrMsg
  undecodable : ErrMsg
  index_mismatch : ErrMsg

-- map[int]any, of which an entry may be there with the value nil.
abbrev pub LogMap : Type 0 → Type 0
LogMap C = ℕ → Option (Option C)

-- rs.log[j]
abbrev pub entry_of : {C : Type 0} → Option (Option C) → Option C
entry_of none = none
entry_of (some c) = c

pub data Call (C : Type 0) : Type 0 where
  check_logs : ApplyMsg C → Call C
  ingest_log : LogMap C → Call C
  apply_err : ErrMsg → Call C

pub record Rfsrv (C : Type 0) : Type 0 where
  pub me : ℕ
  pub last_applied : ℕ
  pub raft : Raft C
  pub log : LogMap C

abbrev pub snapshot_interval : ℕ
snapshot_interval = 10

abbrev pub report : {C : Type 0} → ErrMsg → List (Call C)
report no_error = []
report e = apply_err e ∷ []

module _ {C : Type 0} where
  -- One message of the applier without snapshots.
  unfoldable pub applier : ApplyMsg C → ErrMsg × Bool → List (Call C)
  applier m (err_msg, prevok) =
      if m.command_valid
      then check_logs m
        ∷ report
            (if ltb 1 m.command_index && not prevok then out_of_order m.command_index else err_msg)
      else []

  -- xlog, the first `n` entries of the log with nil for those that are missing.
  unfoldable pub first_entries : ℕ → LogMap C → List (Option C)
  first_entries zero l = []
  first_entries (suc n) l = first_entries n l ++ entry_of (l n) ∷ []

  -- err_msg != "ErrRPC" && m.CommandIndex > 1 && prevok == false
  abbrev pub judged : ApplyMsg C → ErrMsg × Bool → ErrMsg
  judged m (err_rpc, prevok) = err_rpc
  judged m (err_msg, prevok) =
      if ltb 1 m.command_index && not prevok then out_of_order m.command_index else err_msg

  -- What is told of a command: the tester checks it if it is the next one.
  unfoldable pub command_calls : ApplyMsg C → ErrMsg × Bool → ℕ → List (Call C)
  command_calls m answer last_applied =
      if m.command_index == last_applied + 1
      then check_logs m ∷ report (judged m answer)
      else apply_err (not_next (last_applied + 1) m.command_index) ∷ []

  abbrev pub set_entry : ℕ → Option C → LogMap C → LogMap C
  set_entry index command l j = if index == j then some command else l j

  abbrev pub applied : ApplyMsg C → Rfsrv C → Rfsrv C
  applied m rs = record rs {
    log = set_entry m.command_index m.command rs.log;
    last_applied = m.command_index;
  }

  -- GetState and its RPC.
  unfoldable pub rf_get_state : Rfsrv C → ℕ × Bool
  rf_get_state rs = get_state rs.raft

module _ {C : Type 0} ⦃codec : Codec C⦄ where
  -- Start and its RPC: the peer is there from the start.
  unfoldable pub rf_start : C → Rfsrv C → Rfsrv C × Started
  rf_start command rs =
      let (raft, done) = start command rs.raft in (record rs { raft = raft }, done)

module _ {C : Type 0} (snapshots : SnapshotCodec C) where
  ingest_decoded : Option (ℕ × List (Option C)) → Option ℕ → Rfsrv C → Rfsrv C × ErrMsg
  ingest_decoded none index rs = (rs, undecodable)
  ingest_decoded (some (last_included_index, xlog)) none rs =
      (record rs { log = get_elem? xlog; last_applied = last_included_index }, no_error)
  ingest_decoded (some (last_included_index, xlog)) (some index) rs =
      if index == last_included_index
      then (record rs { log = get_elem? xlog; last_applied = last_included_index }, no_error)
      else (rs, index_mismatch)

  -- A nil snapshot, and an index of -1, are `none`.
  unfoldable pub ingest_snap : Option (List ℕ) → Option ℕ → Rfsrv C → Rfsrv C × ErrMsg
  unfolding ingest_decoded
  ingest_snap none index rs = (rs, nil_snapshot)
  ingest_snap (some snapshot) index rs = ingest_decoded (snapshots.decode snapshot) index rs

module _ {C : Type 0} ⦃codec : Codec C⦄ (snapshots : SnapshotCodec C) where
  abbrev pub with_raft : Rfsrv C → Raft C → Option (Rfsrv C)
  with_raft rs raft = some (record rs { raft = raft })

  -- The snapshot of the log up to `index`, if it is due.
  unfoldable pub snapshot_if_due : ℕ → Rfsrv C → Option (Rfsrv C)
  snapshot_if_due index rs =
      let snapshot = snapshots.encode index (first_entries (index + 1) rs.log) in
      if (index + 1) % snapshot_interval == 0
      then (take_snapshot index snapshot rs.raft >>= with_raft rs)
      else some rs

  abbrev pub with_calls : List (Call C) → Rfsrv C → Option (Rfsrv C × List (Call C))
  with_calls calls rs = some (rs, calls)

  abbrev pub ingested : Rfsrv C × ErrMsg → Option (Rfsrv C × List (Call C))
  ingested (rs, err_msg) = some (rs, ingest_log rs.log ∷ report err_msg)

  -- One message of the applier with snapshots. The snapshot of a message is not nil.
  unfoldable pub applier_snap :
      ApplyMsg C → ErrMsg × Bool → Rfsrv C → Option (Rfsrv C × List (Call C))
  applier_snap m answer rs =
      if m.snapshot_valid
      then ingested (ingest_snap snapshots (some m.snapshot) (some m.snapshot_index) rs)
      else if m.command_valid
      then (snapshot_if_due m.command_index (applied m rs)
          >>= with_calls (command_calls m answer rs.last_applied))
      else some (rs, [])

  started : Rfsrv C × ErrMsg → Option (Rfsrv C × List (Call C))
  started (rs, no_error) = some (rs, ingest_log rs.log ∷ [])
  started (rs, e) = none

  -- newRfsrv: the applier that it starts has no step yet. It is fatal that a snapshot on disk is none.
  unfoldable pub new_rfsrv : ℕ → ℕ → ℕ → ℕ → Persister → Bool → Option (Rfsrv C × List (Call C))
  unfolding started
  new_rfsrv now randomized peers me persister snapshot =
      let rs : Rfsrv C = record {
        me = me;
        last_applied = 0;
        raft = make now randomized peers me persister;
        log = λ j. none;
      } in
      let sn = read_snapshot persister in
      if snapshot && ltb 0 (length sn)
      then started (ingest_snap snapshots (some sn) none rs)
      else some (rs, [])
