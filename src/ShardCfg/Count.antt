-- ===== src/ShardCfg/Count.antt =====
-- shardkv1/shardcfg/shardcfg.go: how many shards a group has, and what the loops do to that.
use linearizable_kv_store.Prelude.{
  ℕ, ◌+◌, ◌≤◌, ◌<◌, ◌≡◌, refl, Bool, List, [], ◌∷◌, ◌==◌, if◌then◌else◌, arith, Bool-cases, inl,
  inr, length,
}
use linearizable_kv_store.Prelude.Assoc.{mem, Distinct}
use linearizable_kv_store.Prelude.Family.{update}
use linearizable_kv_store.ShardCfg.Sum.{
  sum_over, sum_over_congr, sum_over-add, sum_over-zero, sum_over-update,
  sum_over-update_of_not_mem,
}
use linearizable_kv_store.ShardCfg.Rebalance.{count, move_one, sort, insert_sorted}

abbrev pub one_if : Bool → ℕ
one_if b = if b then 1 else 0

pub count-le : (g : ℕ) (shards : List ℕ) → count g shards ≤ length shards
count-le g [] = omega arith
count-le g (x ∷ xs) = ground (arith, count-le g xs)

pub count-move_one :
    (mg lg g : ℕ) (shards : List ℕ)
    → 0 < count mg shards
    → count g (move_one mg lg shards) + one_if (g == mg) ≡ count g shards + one_if (g == lg)
unfolding move_one
count-move_one mg lg g [] h = absurd (omega arith)
count-move_one mg lg g (x ∷ xs) h = elim (Bool-cases (x == mg)) [
  | inl p ↦ ground arith
  | inr p ↦ ground (arith, count-move_one mg lg g xs)
]

pub length-move_one : (mg lg : ℕ) (shards : List ℕ) → length (move_one mg lg shards) ≡ length shards
unfolding move_one
length-move_one mg lg [] = refl
length-move_one mg lg (x ∷ xs) = ground (arith, length-move_one mg lg xs)

-- A shard is counted for one group.
sum_over-one : (x : ℕ) (gs : List ℕ) → Distinct gs → sum_over (λ g. one_if (g == x)) gs ≤ 1
sum_over-one x gs d = elim (Bool-cases (mem x gs)) [
  | inl p ↦ omega (arith, same, sum_over-zero gs, sum_over-update (λ g. 0) x 1 gs d p)
  | inr p ↦ omega (arith, same, sum_over-zero gs, sum_over-update_of_not_mem (λ g. 0) x 1 gs p)
]
  where
    same : sum_over (λ g. one_if (g == x)) gs ≡ sum_over (update (λ g. 0) x 1) gs
    same = sum_over_congr _ _ gs (λ g. ground arith)

pub sum_over-count-le :
    (gs shards : List ℕ) → Distinct gs → sum_over (λ g. count g shards) gs ≤ length shards
sum_over-count-le gs [] d = omega (arith, sum_over-zero gs)
sum_over-count-le gs (x ∷ xs) d = omega (
  arith,
  same,
  sum_over-add (λ g. one_if (g == x)) (λ g. count g xs) gs,
  sum_over-one x gs d,
  sum_over-count-le gs xs d,
)
  where
    same : sum_over (λ g. count g (x ∷ xs)) gs ≡ sum_over (λ g. one_if (g == x) + count g xs) gs
    same = sum_over_congr _ _ gs (λ g. ground arith)

mem-insert_sorted : (x y : ℕ) (ys : List ℕ) → mem x (insert_sorted y ys) ≡ mem x (y ∷ ys)
unfolding insert_sorted
mem-insert_sorted x y [] = refl
mem-insert_sorted x y (z ∷ ys) = ground (arith, mem-insert_sorted x y ys)

pub mem-sort : (x : ℕ) (xs : List ℕ) → mem x (sort xs) ≡ mem x xs
unfolding sort
mem-sort x [] = refl
mem-sort x (y ∷ ys) = ground (arith, mem-sort x ys, mem-insert_sorted x y (sort ys))
