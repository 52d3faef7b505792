-- ===== src/Prelude/Panic.antt =====
-- Go code that may panic: `none` is a panic, such as an index out of range.
use mathlib.Core.Path.{◌≡◌, refl}
use mathlib.Core.Option.{Option, none, some}
use mathlib.Core.List.{List, [], ◌∷◌, ◌++◌}
use Prim.Native.Nat.{ℕ, zero, suc, ◌<◌}
use native.Mathlib.Omega.{arith}
use linearizable_kv_store.Prelude.Tests.{◌==◌, if◌then◌else◌}
use linearizable_kv_store.Prelude.Lists.{length, get_elem?}

infixl 5 ◌>>=◌
abbrev pub ◌>>=◌ {ℓ κ} : {A : Type ℓ} {B : Type κ} → Option A → (A → Option B) → Option B
none >>= f = none
some a >>= f = f a

-- Code that goes on after a first part has run that part without a panic.
pub >>=-eq-some {ℓ κ} :
    {A : Type ℓ} {B : Type κ} (m : Option A) (f : A → Option B) {b : B}
    → (m >>= f) ≡ some b
    → (a : A) × (m ≡ some a) × (f a ≡ some b)
>>=-eq-some none f h = cc
>>=-eq-some (some a) f h = (a, refl, h)

-- for _, x := range xs
abbrev pub each {ℓ κ} : {A : Type ℓ} {S : Type κ} → (A → S → Option S) → List A → S → Option S
each f [] s = some s
each f (x ∷ xs) s = f x s >>= each f xs

-- xs[i] = v
abbrev pub assign {ℓ} : {A : Type ℓ} → List A → ℕ → A → Option (List A)
assign [] i v = none
assign (x ∷ xs) zero v = some (v ∷ xs)
assign (x ∷ xs) (suc i) v = assign xs i v >>= λ rest. some (x ∷ rest)

pub assign-some {ℓ} :
    {A : Type ℓ} (xs : List A) (i : ℕ) (v : A)
    → i < length xs
    → (ys : List A) × (assign xs i v ≡ some ys)
      × ((k : ℕ) → get_elem? ys k ≡ (if i == k then some v else get_elem? xs k))
assign-some [] i v h = absurd (omega arith)
assign-some {A = A} (x ∷ xs) zero v h = (v ∷ xs, refl, there)
  where
    there : (k : ℕ) → get_elem? (v ∷ xs) k ≡ (if zero == k then some v else get_elem? (x ∷ xs) k)
    there zero = ground arith
    there (suc k) = ground arith
assign-some {A = A} (x ∷ xs) (suc i) v h =
    let (ys, e, get) = assign-some xs i v (omega arith) in (x ∷ ys, rw e refl, there ys get)
  where
    there :
        (ys : List A)
        → ((k : ℕ) → get_elem? ys k ≡ (if i == k then some v else get_elem? xs k))
        → (k : ℕ) → get_elem? (x ∷ ys) k ≡ (if suc i == k then some v else get_elem? (x ∷ xs) k)
    there ys get zero = ground arith
    there ys get (suc k) = ground (arith, get k)

pub each-append {ℓ κ} :
    {A : Type ℓ} {S : Type κ} (f : A → S → Option S) (xs ys : List A) (s : S)
    → each f (xs ++ ys) s ≡ (each f xs s >>= each f ys)
each-append f [] ys s = refl
each-append {S = S} f (x ∷ xs) ys s = go (f x s) (each-append f xs ys)
  where
    go :
        (o : Option S)
        → ((t : S) → each f (xs ++ ys) t ≡ (each f xs t >>= each f ys))
        → (o >>= each f (xs ++ ys)) ≡ ((o >>= each f xs) >>= each f ys)
    go none later = refl
    go (some t) later = later t
