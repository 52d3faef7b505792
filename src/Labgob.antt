-- ===== src/Labgob.antt =====
-- labgob/labgob.go: the checks of what is encoded and decoded. A reflect.Type is a number below `n`, and
-- what reflection says of the types is a parameter; a type may lead back to itself. A warning is kept
-- as the name in it. The encoding is that of encoding/gob, and is left out.
pub mod Types
pub mod Checked
pub mod Default
mod Tests
use linearizable_kv_store.Prelude.{
  ℕ, zero, suc, ◌+◌, Bool, true, false, not, Option, none, some, List, [], ◌∷◌, String, ltb,
  if◌then◌else◌,
}
use linearizable_kv_store.Prelude.Panic.{◌>>=◌, each}
use linearizable_kv_store.Prelude.Assoc.{mem}

-- `upper` is unicode.IsUpper of the first rune of the name.
pub record StructField : Type 0 where
  pub name : String
  pub upper : Bool
  pub typ : ℕ

-- t.Kind() with t.Elem(), t.Key() and the fields; `container` is a slice, an array or a pointer.
pub data Kind : Type 0 where
  struct : List StructField → Kind
  container : (elem : ℕ) → Kind
  map : (elem key : ℕ) → Kind
  other : Kind

-- The package's variables, and what has been printed.
pub record Labgob : Type 0 where
  pub error_count : ℕ
  pub checked : List ℕ
  pub printed : List String

unfoldable pub init : Labgob
init = record { error_count = 0; checked = []; printed = [] }

unfoldable pub complain : StructField → Labgob → Labgob
complain f lg =
    if f.upper
    then lg
    else record lg { error_count = lg.error_count + 1; printed = f.name ∷ lg.printed }

-- checkType, on fuel.
abbrev pub check_type : (ℕ → Kind) → ℕ → ℕ → Labgob → Option Labgob
unfolding complain
check_type kinds zero t lg = none
check_type kinds (suc fuel) t lg = elim (mem t lg.checked) [
  | true ↦ some lg
  | false ↦
      let lg = record lg { checked = t ∷ lg.checked } in
      elim (kinds t) [
        | struct fs ↦ each (λ f lg. check_type kinds fuel f.typ (complain f lg)) fs lg
        | container e ↦ check_type kinds fuel e lg
        | map e k ↦ check_type kinds fuel e lg >>= check_type kinds fuel k
        | other ↦ some lg
      ]
]

unfoldable pub check_value : (ℕ → Kind) → ℕ → ℕ → Labgob → Option Labgob
unfolding check_type
check_value kinds n t lg = check_type kinds (n + 1) t lg
