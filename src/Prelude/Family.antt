-- ===== src/Prelude/Family.antt =====
-- Families indexed by numbers: an update at one index, and sums over the first indices.
use Prim.Native.Nat.{ℕ, zero, suc, ◌+◌, ◌≤◌, ◌<◌}
use mathlib.Core.Path.{◌≡◌, refl}
use mathlib.Core.Bool.{true, false, ◌&&◌}
use mathlib.Core.Logic.{inl, inr}
use native.Mathlib.Decide.{dec_lt}
use native.Mathlib.Omega.{arith}
use linearizable_kv_store.Prelude.Tests.{◌==◌, ==_iff, Bool-cases, if◌then◌else◌}

abbrev pub update {ℓ} : {A : Type ℓ} → (ℕ → A) → ℕ → A → ℕ → A
update f i a j = if i == j then a else f j

-- The sum of the first `n` members.
pub sum_below : ℕ → (ℕ → ℕ) → ℕ
sum_below zero f = 0
sum_below (suc n) f = sum_below n f + f n

pub sum_below-le : (n : ℕ) (f g : ℕ → ℕ) → ((k : ℕ) → f k ≤ g k) → sum_below n f ≤ sum_below n g
unfolding sum_below
sum_below-le zero f g h = omega arith
sum_below-le (suc n) f g h = omega (arith, h n, sum_below-le n f g h)

-- Two families that share at most one unit at each index.
pub sum_below_disjoint :
    (n : ℕ) (f g : ℕ → ℕ) → ((k : ℕ) → f k + g k ≤ 1) → sum_below n f + sum_below n g ≤ n
unfolding sum_below
sum_below_disjoint zero f g h = omega arith
sum_below_disjoint (suc n) f g h = omega (arith, h n, sum_below_disjoint n f g h)

pub sum_below-update_of_le :
    (n : ℕ) (f : ℕ → ℕ) (i a : ℕ) → n ≤ i → sum_below n (update f i a) ≡ sum_below n f
unfolding sum_below
sum_below-update_of_le zero f i a h = refl
sum_below-update_of_le (suc n) f i a h = ground (arith, sum_below-update_of_le n f i a)

pub sum_below-update :
    (n : ℕ) (f : ℕ → ℕ) (i a : ℕ) → i < n → sum_below n (update f i a) + f i ≡ sum_below n f + a
unfolding sum_below
sum_below-update zero f i a h = absurd (omega arith)
sum_below-update (suc n) f i a h = elim (dec_lt i n) [
  | yes below ↦ ground (arith, sum_below-update n f i a below)
  | no last ↦ ground (arith, sum_below-update_of_le n f i a)
]

pub sum_below_congr : (n : ℕ) (f g : ℕ → ℕ) → ((k : ℕ) → f k ≡ g k) → sum_below n f ≡ sum_below n g
unfolding sum_below
sum_below_congr zero f g h = refl
sum_below_congr (suc n) f g h = omega (arith, h n, sum_below_congr n f g h)

pub sum_below-zero : (n : ℕ) (f : ℕ → ℕ) → ((k : ℕ) → f k ≡ 0) → sum_below n f ≡ 0
unfolding sum_below
sum_below-zero zero f h = refl
sum_below-zero (suc n) f h = omega (arith, h n, sum_below-zero n f h)

-- A property of every member after an update: of the new member, and of the others.
pub update_cases {ℓ κ} :
    {A : Type ℓ} (P : ℕ → A → Type κ) (f : ℕ → A) (i : ℕ) (x : A)
    → P i x
    → ((k : ℕ) → P k (f k))
    → (k : ℕ) → P k (update f i x k)
update_cases P f i x new old k = elim (Bool-cases (i == k)) [
  | inl p ↦ rw (p, ← (==_iff i k).0 p) new
  | inr p ↦ rw p (old k)
]

-- A table with one entry changed.
abbrev pub put_at {ℓ} : {A : Type ℓ} → ℕ → ℕ → A → (ℕ → ℕ → A) → ℕ → ℕ → A
put_at i t x f a b = if a == i && b == t then x else f a b

pub put_at_cases {ℓ κ} :
    {A : Type ℓ} (P : ℕ → ℕ → A → Type κ) (f : ℕ → ℕ → A) (i t : ℕ) (x : A)
    → P i t x
    → ((a b : ℕ) → (a == i && b == t) ≡ false → P a b (f a b))
    → (a b : ℕ) → P a b (put_at i t x f a b)
put_at_cases P f i t x new old a b = elim (Bool-cases (a == i && b == t)) [
  | inl p ↦ rw (p, both a b p, second a b p) new
  | inr p ↦ rw p (old a b p)
]
  where
    both : (a b : ℕ) → (a == i && b == t) ≡ true → a ≡ i
    both a b p = ground arith

    second : (a b : ℕ) → (a == i && b == t) ≡ true → b ≡ t
    second a b p = ground arith
