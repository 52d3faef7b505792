-- ===== src/Raft/Commit/Highest.antt =====
-- raft1/raft.go: what advanceCommit commits.
use linearizable_kv_store.Prelude.{
  ℕ, ◌+◌, ◌-◌, ◌≤◌, ◌<◌, ◌≡◌, ◌⊎◌, refl, true, false, some, length, get_elem?-some, ltb, arith,
}
use linearizable_kv_store.Raft.{Raft}
use linearizable_kv_store.Raft.State.{term_at}
use linearizable_kv_store.Raft.Commit.{has_majority}

ltb_ge : (n m : ℕ) → m ≤ n → ltb n m ≡ false
ltb_ge n m h = ground arith

module _ {C : Type 0} where
  -- An index that may be committed: an entry of the current term, above the snapshot, that a majority
  -- of the peers has.
  pub record Ready (rf : Raft C) (n : ℕ) : Type 0 where
    pub above : rf.last_included_index < n
    pub own : term_at rf n ≡ some rf.current_term
    pub majority : has_majority n rf ≡ true

  -- The commit index moves to the highest ready index up to `bound`, if that is higher.
  pub record Highest (rf : Raft C) (bound c : ℕ) : Type 0 where
    pub grows : rf.commit_index ≤ c
    pub ready : (c ≡ rf.commit_index) ⊎ (Ready rf c × (c ≤ bound))
    pub highest : (k : ℕ) → c < k → k ≤ bound → ¬ Ready rf k

  pub term_at-some :
      (rf : Raft C) (n : ℕ)
      → rf.last_included_index ≤ n
      → n < rf.last_included_index + length rf.log
      → (t : ℕ) × (term_at rf n ≡ some t)
  unfolding term_at
  term_at-some rf n low high =
      let (e, found) = get_elem?-some rf.log (n - rf.last_included_index) (omega arith) in
      (e.term, rw ((ltb_ge n rf.last_included_index low), found) refl)
