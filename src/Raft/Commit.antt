-- ===== src/Raft/Commit.antt =====
-- raft1/raft.go: how a leader moves its commit index.
pub mod Highest
use linearizable_kv_store.Prelude.{
  ℕ, zero, suc, ◌+◌, ◌*◌, Bool, Option, some, List, [], ◌∷◌, ltb, leb, ◌==◌, if◌then◌else◌, not,
}
use linearizable_kv_store.Prelude.Panic.{◌>>=◌}
use linearizable_kv_store.Raft.{Raft}
use linearizable_kv_store.Raft.State.{last_log_index, term_at}

-- The peers from `i` on, other than `me`, whose match index has reached `index`. `matchIndex` has one
-- place for each peer.
unfoldable pub replicas : ℕ → ℕ → ℕ → List ℕ → ℕ
replicas i me index [] = 0
replicas i me index (m ∷ ms) =
    let rest = replicas (i + 1) me index ms in
    if i == me then rest else if leb index m then rest + 1 else rest

module _ {C : Type 0} where
  -- count * 2 > len(rf.peers)
  unfoldable pub has_majority : ℕ → Raft C → Bool
  has_majority index rf = ltb rf.peers ((1 + replicas 0 rf.me index rf.match_index) * 2)

  -- The loop from `index` down.
  unfoldable pub advance_from : ℕ → Raft C → Option (Raft C)
  advance_from zero rf = some rf
  advance_from (suc n) rf =
      let rest = advance_from n rf in
      if leb (suc n) rf.commit_index
      then some rf
      else if leb (suc n) rf.last_included_index
      then some rf
      else (term_at rf (suc n) >>= λ t.
          if not (t == rf.current_term)
          then rest
          else if has_majority (suc n) rf
          then some (record rf { commit_index = suc n })
          else rest)

  unfoldable pub advance_commit : Raft C → Option (Raft C)
  advance_commit rf = advance_from (last_log_index rf) rf
