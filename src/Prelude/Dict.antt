-- ===== src/Prelude/Dict.antt =====
-- A Go map with string keys, for code that never iterates over it: a function to `Option`.
use text.Mathlib.Text.{◌==◌ as str_eq}
use text.Mathlib.TextEquality.{eq_iff}
use text.Mathlib.TextPositions.{eq_refl}
use Prim.Native.String.{String}
use native.Mathlib.Omega.{arith}
use mathlib.Core.Path.{◌≡◌}
use mathlib.Core.Logic.{◌≢◌, ◌⊎◌}
use mathlib.Core.Option.{Option, none, some}
use linearizable_kv_store.Prelude.Tests.{if◌then◌else◌}

abbrev pub Dict {ℓ} : Type ℓ → Type ℓ
Dict V = String → Option V

-- make(map[string]V)
abbrev pub empty {ℓ} : {V : Type ℓ} → Dict V
empty k = none

-- m[k] = v
abbrev pub insert {ℓ} : {V : Type ℓ} → String → V → Dict V → Dict V
insert k v m j = if str_eq k j then some v else m j

-- delete(m, k)
abbrev pub erase {ℓ} : {V : Type ℓ} → String → Dict V → Dict V
erase k m j = if str_eq k j then none else m j

pub insert_self {ℓ} : {V : Type ℓ} (k : String) (v : V) (m : Dict V) → insert k v m k ≡ some v
insert_self k v m = simp eq_refl

pub insert_ne {ℓ} : {V : Type ℓ} (k j : String) (v : V) (m : Dict V) → k ≢ j → insert k v m j ≡ m j
insert_ne k j v m h = ground (arith, eq_iff k j)

-- What is found after an insertion is the new value, or was there before.
pub insert_cases {ℓ} :
    {V : Type ℓ} (k j : String) (v w : V) (m : Dict V)
    → insert k v m j ≡ some w
    → (w ≡ v) ⊎ (m j ≡ some w)
insert_cases k j v w m h = ground arith

pub erase_self {ℓ} : {V : Type ℓ} (k : String) (m : Dict V) → erase k m k ≡ none
erase_self k m = simp eq_refl

pub erase_ne {ℓ} : {V : Type ℓ} (k j : String) (m : Dict V) → k ≢ j → erase k m j ≡ m j
erase_ne k j m h = ground (arith, eq_iff k j)
