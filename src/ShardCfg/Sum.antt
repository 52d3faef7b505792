-- ===== src/ShardCfg/Sum.antt =====
-- Sums over the groups, for the loads of shardkv1/shardcfg/shardcfg.go.
use linearizable_kv_store.Prelude.{
  ℕ, ◌+◌, ◌*◌, ◌≤◌, ◌≡◌, refl, true, false, List, [], ◌∷◌, ◌==◌, arith, Bool-cases, inl, inr,
}
use linearizable_kv_store.Prelude.Assoc.{mem, Distinct}
use linearizable_kv_store.Prelude.Family.{update}

unfoldable pub sum_over : (ℕ → ℕ) → List ℕ → ℕ
sum_over f [] = 0
sum_over f (g ∷ gs) = f g + sum_over f gs

pub sum_over_congr :
    (f f' : ℕ → ℕ) (gs : List ℕ) → ((g : ℕ) → f g ≡ f' g) → sum_over f gs ≡ sum_over f' gs
unfolding sum_over
sum_over_congr f f' [] h = refl
sum_over_congr f f' (g ∷ gs) h = omega (arith, h g, sum_over_congr f f' gs h)

pub sum_over_mono :
    (f f' : ℕ → ℕ) (gs : List ℕ) → ((g : ℕ) → f g ≤ f' g) → sum_over f gs ≤ sum_over f' gs
unfolding sum_over
sum_over_mono f f' [] h = omega arith
sum_over_mono f f' (g ∷ gs) h = omega (arith, h g, sum_over_mono f f' gs h)

pub sum_over-add :
    (f f' : ℕ → ℕ) (gs : List ℕ) → sum_over (λ g. f g + f' g) gs ≡ sum_over f gs + sum_over f' gs
unfolding sum_over
sum_over-add f f' [] = refl
sum_over-add f f' (g ∷ gs) = omega (arith, sum_over-add f f' gs)

pub sum_over-mul :
    (n : ℕ) (f : ℕ → ℕ) (gs : List ℕ) → sum_over (λ g. n * f g) gs ≡ n * sum_over f gs
unfolding sum_over
sum_over-mul n f [] = grind arith
sum_over-mul n f (g ∷ gs) = grind (arith, sum_over-mul n f gs)

pub sum_over-zero : (gs : List ℕ) → sum_over (λ g. 0) gs ≡ 0
unfolding sum_over
sum_over-zero [] = refl
sum_over-zero (g ∷ gs) = omega (arith, sum_over-zero gs)

pub sum_over-update_of_not_mem :
    (f : ℕ → ℕ) (a v : ℕ) (gs : List ℕ)
    → mem a gs ≡ false
    → sum_over (update f a v) gs ≡ sum_over f gs
unfolding sum_over
sum_over-update_of_not_mem f a v [] h = refl
sum_over-update_of_not_mem f a v (g ∷ gs) h = ground (arith, sum_over-update_of_not_mem f a v gs)

pub sum_over-update :
    (f : ℕ → ℕ) (a v : ℕ) (gs : List ℕ)
    → Distinct gs
    → mem a gs ≡ true
    → sum_over (update f a v) gs + f a ≡ sum_over f gs + v
unfolding sum_over
sum_over-update f a v [] d h = absurd (ground arith)
sum_over-update f a v (g ∷ gs) d h = elim (Bool-cases (a == g)) [
  | inl p ↦ ground (arith, sum_over-update_of_not_mem f a v gs, d.0)
  | inr p ↦ ground (arith, sum_over-update f a v gs d.1)
]
