-- ===== src/RfServer/Checker.antt =====
-- raft1/test.go: what the tester keeps of the servers, and its check of what they apply. The servers are
-- those below `n`.
pub mod Agreement
pub mod Counted
use linearizable_kv_store.Prelude.{
  ℕ, zero, suc, ◌+◌, ◌-◌, ◌<◌, ◌≡◌, ◌↔◌, Bool, true, false, not, ◌&&◌, ◌||◌, Option, none, some,
  List, ltb, ◌==◌, if◌then◌else◌,
}
use linearizable_kv_store.Prelude.Family.{update}
use linearizable_kv_store.Prelude.Panic.{◌>>=◌}
use linearizable_kv_store.Raft.Apply.{ApplyMsg}
use linearizable_kv_store.RfServer.{ErrMsg, no_error, conflict, LogMap, set_entry}

-- The comparison of two commands of type `any`, either of which may be nil.
pub record Comparable (C : Type 0) : Type 0 where
  pub same : Option C → Option C → Bool
  pub same_iff : (a b : Option C) → (same a b ≡ true) ↔ (a ≡ b)

-- What the tester knows of one server.
pub record RaftServer (C : Type 0) : Type 0 where
  pub apply_err : ErrMsg
  pub logs : LogMap C

pub record Test (C : Type 0) : Type 0 where
  pub n : ℕ
  pub srvs : ℕ → RaftServer C
  pub max_index : ℕ

abbrev pub is_error : ErrMsg → Bool
is_error no_error = false
is_error _ = true

module _ {C : Type 0} where
  unfoldable pub new_raft_server : RaftServer C
  new_raft_server = record { apply_err = no_error; logs = λ j. none }

  unfoldable pub entry : RaftServer C → ℕ → Option (Option C)
  entry rs i = rs.logs i

  -- An entry before index 0 is not in the map.
  abbrev pub has_previous : RaftServer C → ℕ → Bool
  has_previous rs zero = false
  has_previous rs (suc i) = elim (rs.logs i) [ none ↦ false | some c ↦ true ]

  unfoldable pub ingest_log : ℕ → LogMap C → Test C → Test C
  ingest_log i xlog ts = record ts { srvs = update ts.srvs i (record (ts.srvs i) { logs = xlog }) }

  unfoldable pub apply_err : ℕ → ErrMsg → Test C → Test C
  apply_err i err ts = record ts {
    srvs = update ts.srvs i (record (ts.srvs i) { apply_err = err });
  }

module _ {C : Type 0} ⦃cmp : Comparable C⦄ where
  -- oldok && old != v
  abbrev pub differs : Option (Option C) → Option C → Bool
  differs none v = false
  differs (some old) v = not (cmp.same old v)

  -- The loop of CheckLogs over the first servers: the last one in conflict is reported.
  unfoldable pub find_conflict : ℕ → ℕ → ApplyMsg C → (ℕ → RaftServer C) → ErrMsg
  find_conflict zero i m srvs = no_error
  find_conflict (suc j) i m srvs =
      let earlier = find_conflict j i m srvs in
      if differs ((srvs j).logs m.command_index) m.command
      then conflict m.command_index i j
      else earlier

  unfoldable pub check_logs : ℕ → ApplyMsg C → Test C → Test C × ErrMsg × Bool
  check_logs i m ts =
      let me = ts.srvs i in
      (
        record ts {
          srvs =
              update ts.srvs i (record me { logs = set_entry m.command_index m.command me.logs });
          max_index = if ltb ts.max_index m.command_index then m.command_index else ts.max_index;
        },
        find_conflict ts.n i m ts.srvs,
        has_previous me m.command_index,
      )

  -- One more server in the loop of nCommitted. A server with an error, or with another command, is fatal.
  abbrev pub tally_entry : Option (Option C) → ℕ × Option C → Option (ℕ × Option C)
  tally_entry none so_far = some so_far
  tally_entry (some cmd1) so_far =
      if ltb 0 so_far.0 && not (cmp.same so_far.1 cmd1) then none else some (so_far.0 + 1, cmd1)

  unfoldable pub tally : ℕ → ℕ → (ℕ → RaftServer C) → Option (ℕ × Option C)
  tally zero index srvs = some (0, none)
  tally (suc j) index srvs =
      let rest = tally j index srvs >>= tally_entry ((srvs j).logs index) in
      if is_error (srvs j).apply_err then none else rest

  unfoldable pub n_committed : ℕ → Test C → Option (ℕ × Option C)
  n_committed index ts = tally ts.n index ts.srvs
