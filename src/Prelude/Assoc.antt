-- ===== src/Prelude/Assoc.antt =====
-- A Go map with number keys, for code that iterates over it: its entries in some order of iteration.
use Prim.Native.Nat.{ℕ}
use mathlib.Core.Path.{◌≡◌, refl}
use mathlib.Core.Bool.{Bool, true, false, ◌||◌}
use mathlib.Core.Option.{Option, none, some}
use mathlib.Core.List.{List, [], ◌∷◌}
use native.Mathlib.Omega.{arith}
use mathlib.Core.Logic.{inl, inr}
use linearizable_kv_store.Prelude.Tests.{◌==◌, Bool-cases, if◌then◌else◌}

-- Is `x` among them?
abbrev pub mem : ℕ → List ℕ → Bool
mem x [] = false
mem x (y ∷ ys) = x == y || mem x ys

-- No number occurs twice.
abbrev pub Distinct : List ℕ → Type 0
Distinct [] = Unit
Distinct (x ∷ xs) = (mem x xs ≡ false) × Distinct xs

module _ {ℓ} {V : Type ℓ} where
  abbrev pub keys : List (ℕ × V) → List ℕ
  keys [] = []
  keys ((k, v) ∷ m) = k ∷ keys m

  -- v, ok := m[k]
  abbrev pub lookup : ℕ → List (ℕ × V) → Option V
  lookup k [] = none
  lookup k ((j, v) ∷ m) = if k == j then some v else lookup k m

  -- delete(m, k)
  abbrev pub erase : ℕ → List (ℕ × V) → List (ℕ × V)
  erase k [] = []
  erase k ((j, v) ∷ m) = let rest = erase k m in if k == j then rest else (j, v) ∷ rest

  abbrev pub has : ℕ → List (ℕ × V) → Bool
  has k m = mem k (keys m)

  pub lookup-erase :
      (k j : ℕ) (m : List (ℕ × V)) → lookup j (erase k m) ≡ (if j == k then none else lookup j m)
  lookup-erase k j [] = ground arith
  lookup-erase k j ((i, v) ∷ m) = ground (arith, lookup-erase k j m)

  pub has-erase :
      (k j : ℕ) (m : List (ℕ × V)) → has j (erase k m) ≡ (if j == k then false else has j m)
  has-erase k j [] = ground arith
  has-erase k j ((i, v) ∷ m) = ground (arith, has-erase k j m)

  pub Distinct-erase : (k : ℕ) (m : List (ℕ × V)) → Distinct (keys m) → Distinct (keys (erase k m))
  Distinct-erase k [] d = tt
  Distinct-erase k ((i, v) ∷ m) d = elim (Bool-cases (k == i)) [
    | inl p ↦ rw p (Distinct-erase k m d.1)
    | inr p ↦ rw p (ground (arith, has-erase k i m, d.0), Distinct-erase k m d.1)
  ]

  -- A key that is found is there, and one that is there is found.
  pub lookup-has : (k : ℕ) (m : List (ℕ × V)) {v : V} → lookup k m ≡ some v → has k m ≡ true
  lookup-has k [] h = absurd (cc)
  lookup-has k ((j, w) ∷ m) h = elim (Bool-cases (k == j)) [
    | inl p ↦ rw p refl
    | inr p ↦ rw p (lookup-has k m (rw p at h))
  ]

  pub has-lookup : (k : ℕ) (m : List (ℕ × V)) → has k m ≡ true → (v : V) × (lookup k m ≡ some v)
  has-lookup k [] h = absurd (cc)
  has-lookup k ((j, w) ∷ m) h = elim (Bool-cases (k == j)) [
    | inl p ↦ (w, rw p refl)
    | inr p ↦ rw p (has-lookup k m (rw p at h))
  ]
