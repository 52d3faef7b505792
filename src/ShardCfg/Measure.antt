-- ===== src/ShardCfg/Measure.antt =====
-- shardkv1/shardcfg/shardcfg.go: the loop of Rebalance that moves shards comes to an end.
use linearizable_kv_store.Prelude.{
  ℕ, ◌+◌, ◌-◌, ◌*◌, ◌≤◌, ◌<◌, ◌≡◌, refl, ap, true, false, List, ◌==◌, ==_iff, arith, Bool-cases,
  inl, inr, length,
}
use linearizable_kv_store.Prelude.Assoc.{mem, Distinct}
use linearizable_kv_store.Prelude.Family.{update}
use linearizable_kv_store.ShardCfg.{n_shards}
use linearizable_kv_store.ShardCfg.Rebalance.{count, move_one, rounds}
use linearizable_kv_store.ShardCfg.Sum.{
  sum_over, sum_over_congr, sum_over_mono, sum_over-mul, sum_over-update,
}
use linearizable_kv_store.ShardCfg.Count.{count-le, count-move_one, sum_over-count-le}

abbrev sq : ℕ → ℕ
sq n = n * n

-- The sum of the squares of the loads.
unfoldable pub measure : List ℕ → List ℕ → ℕ
measure gs shards = sum_over (λ g. sq (count g shards)) gs

sq_suc : (n : ℕ) → sq (n + 1) ≡ sq n + 2 * n + 1
sq_suc n = grind arith

sq_closer : (a b : ℕ) → b + 2 ≤ a → sq (a - 1) + sq (b + 1) < sq a + sq b
sq_closer a b h = omega (arith, ap sq (last a (omega arith)), sq_suc (a - 1), sq_suc b)
  where
    last : (n : ℕ) → 0 < n → n ≡ n - 1 + 1
    last n p = omega arith

at_most : (n : ℕ) → n ≤ 12 → sq n ≤ 12 * n
at_most n h = grind arith

at_group :
    (mg lg g : ℕ) (shards : List ℕ)
    → count lg shards + 2 ≤ count mg shards
    → sq (count g (move_one mg lg shards))
      ≡ update
          (update (λ g. sq (count g shards)) mg (sq (count mg shards - 1)))
          lg
          (sq (count lg shards + 1))
          g
at_group mg lg g shards gap = elim (Bool-cases (lg == g)) [
  | inl p ↦
      rw (p, ← (==_iff lg g).0 p)
        (ap sq (ground (arith, differ, count-move_one mg lg lg shards (omega arith))))
  | inr p ↦ elim (Bool-cases (mg == g)) [
    | inl q ↦
        rw (p, q, ← (==_iff mg g).0 q)
          (ap sq (ground (arith, differ, count-move_one mg lg mg shards (omega arith))))
    | inr q ↦ rw (p, q) (ap sq (ground (arith, count-move_one mg lg g shards (omega arith))))
  ]
]
  where
    differ : (mg == lg) ≡ false
    differ = ground arith

pub measure-move_one :
    (mg lg : ℕ) (gs shards : List ℕ)
    → Distinct gs
    → mem mg gs ≡ true
    → mem lg gs ≡ true
    → count lg shards + 2 ≤ count mg shards
    → measure gs (move_one mg lg shards) < measure gs shards
unfolding measure
measure-move_one mg lg gs shards d m l gap =
    omega (arith, moved, first, second, kept, sq_closer cm cl gap)
  where
    cm : ℕ
    cm = count mg shards

    cl : ℕ
    cl = count lg shards

    f : ℕ → ℕ
    f = λ g. sq (count g shards)

    differ : (mg == lg) ≡ false
    differ = ground arith

    moved :
        sum_over (λ g. sq (count g (move_one mg lg shards))) gs
        ≡ sum_over (update (update f mg (sq (cm - 1))) lg (sq (cl + 1))) gs
    moved = sum_over_congr _ _ gs (λ g. at_group mg lg g shards gap)

    first : sum_over (update f mg (sq (cm - 1))) gs + sq cm ≡ sum_over f gs + sq (cm - 1)
    first = sum_over-update f mg (sq (cm - 1)) gs d m

    second :
        sum_over (update (update f mg (sq (cm - 1))) lg (sq (cl + 1))) gs
          + update f mg (sq (cm - 1)) lg
        ≡ sum_over (update f mg (sq (cm - 1))) gs + sq (cl + 1)
    second = sum_over-update (update f mg (sq (cm - 1))) lg (sq (cl + 1)) gs d l

    kept : update f mg (sq (cm - 1)) lg ≡ sq cl
    kept = rw differ refl

-- The rounds of the model are enough for twelve shards.
pub measure-rounds :
    (gs shards : List ℕ) → Distinct gs → length shards ≡ n_shards → measure gs shards < rounds
unfolding measure
measure-rounds gs shards d e =
    omega (arith, e, bound, sum_over-mul 12 (λ g. count g shards) gs, sum_over-count-le gs shards d)
  where
    bound : sum_over (λ g. sq (count g shards)) gs ≤ sum_over (λ g. 12 * count g shards) gs
    bound =
        sum_over_mono _ _ gs (λ g. at_most (count g shards) (omega (arith, count-le g shards, e)))
