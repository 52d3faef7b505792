-- ===== src/Labgob/Default.antt =====
-- labgob/labgob.go: the warnings on a variable that is decoded into and is not zero.
use Prim.Native.String.{◌++◌ as append}
use text.Mathlib.Text.{◌==◌ as str_eq}
use linearizable_kv_store.Prelude.{
  ℕ, zero, suc, ◌+◌, ◌≡◌, refl, ◌∙◌, Bool, true, false, Option, none, some, ◌∷◌, String, ltb,
  if◌then◌else◌, arith,
}
use linearizable_kv_store.Labgob.{Labgob}

-- A value as reflection shows it. `basic` has the name of its type, and whether it is the type's zero;
-- `other` is a slice, a map, an interface, a channel or a function.
mutual
  pub data Value : Type 0 where
    record_of : Fields → Value
    nil_pointer : Value
    pointer : Value → Value
    basic : (type_name : String) (zero : Bool) → Value
    other : Value

  pub data Fields : Type 0 where
    end : Fields
    field : String → Value → Fields → Fields

abbrev pub dotted : String → String → String
dotted name inner = if str_eq name "" then inner else append name (append "." inner)

-- Only the first error is printed.
unfoldable pub warn : String → String → Labgob → Labgob
warn name type_name lg = record lg {
  error_count = lg.error_count + 1;
  printed =
      if ltb lg.error_count 1
      then (if str_eq name "" then type_name else name) ∷ lg.printed
      else lg.printed;
}

mutual
  unfolding warn

  -- checkDefault1
  pub check_default1 : Value → ℕ → String → Labgob → Labgob
  check_default1 (record_of fs) depth name lg =
      if ltb 3 depth then lg else check_fields fs depth name lg
  check_default1 nil_pointer depth name lg = lg
  check_default1 (pointer v) depth name lg =
      if ltb 3 depth then lg else check_default1 v (depth + 1) name lg
  check_default1 (basic type_name true) depth name lg = lg
  check_default1 (basic type_name false) depth name lg =
      if ltb 3 depth then lg else warn name type_name lg
  check_default1 other depth name lg = lg

  pub check_fields : Fields → ℕ → String → Labgob → Labgob
  check_fields end depth name lg = lg
  check_fields (field f v fs) depth name lg =
      check_fields fs depth name (check_default1 v (depth + 1) (dotted name f) lg)

unfoldable pub check_default : Option Value → Labgob → Labgob
check_default none lg = lg
check_default (some v) lg = check_default1 v 1 "" lg

-- The value without what lies deeper than this many levels.
mutual
  prune : ℕ → Value → Value
  prune zero v = other
  prune (suc k) (record_of fs) = record_of (prune_fields k fs)
  prune (suc k) nil_pointer = nil_pointer
  prune (suc k) (pointer v) = pointer (prune k v)
  prune (suc k) (basic type_name zero_value) = basic type_name zero_value
  prune (suc k) other = other

  prune_fields : ℕ → Fields → Fields
  prune_fields k end = end
  prune_fields k (field f v fs) = field f (prune k v) (prune_fields k fs)

-- The basic values in it that are not zero.
mutual
  set_values : Value → ℕ
  set_values (record_of fs) = set_in fs
  set_values nil_pointer = 0
  set_values (pointer v) = set_values v
  set_values (basic type_name true) = 0
  set_values (basic type_name false) = 1
  set_values other = 0

  set_in : Fields → ℕ
  set_in end = 0
  set_in (field f v fs) = set_values v + set_in fs

deep : (depth : ℕ) → depth + 0 ≡ 4 → ltb 3 depth ≡ true
deep depth h = ground arith

shallow : (k depth : ℕ) → depth + suc k ≡ 4 → ltb 3 depth ≡ false
shallow k depth h = ground arith

mutual
  unfolding check_default1 check_fields prune prune_fields set_values set_in warn

  default_count :
      (v : Value) (k depth : ℕ) (name : String) (lg : Labgob)
      → depth + k ≡ 4
      → (check_default1 v depth name lg).error_count ≡ lg.error_count + set_values (prune k v)
  default_count (record_of fs) zero depth name lg h = rw (deep depth h) (omega arith)
  default_count (record_of fs) (suc k) depth name lg h =
      rw (shallow k depth h) (fields_count fs k depth name lg h)
  default_count nil_pointer zero depth name lg h = omega arith
  default_count nil_pointer (suc k) depth name lg h = omega arith
  default_count (pointer v) zero depth name lg h = rw (deep depth h) (omega arith)
  default_count (pointer v) (suc k) depth name lg h =
      rw (shallow k depth h) (default_count v k (depth + 1) name lg (omega arith))
  default_count (basic type_name true) zero depth name lg h = omega arith
  default_count (basic type_name true) (suc k) depth name lg h = omega arith
  default_count (basic type_name false) zero depth name lg h = rw (deep depth h) (omega arith)
  default_count (basic type_name false) (suc k) depth name lg h = rw (shallow k depth h) refl
  default_count other zero depth name lg h = omega arith
  default_count other (suc k) depth name lg h = omega arith

  fields_count :
      (fs : Fields) (k depth : ℕ) (name : String) (lg : Labgob)
      → depth + suc k ≡ 4
      → (check_fields fs depth name lg).error_count ≡ lg.error_count + set_in (prune_fields k fs)
  fields_count end k depth name lg h = omega arith
  fields_count (field f v fs) k depth name lg h =
      fields_count fs k depth name (check_default1 v (depth + 1) (dotted name f) lg) h
      ∙ omega (arith, default_count v k (depth + 1) (dotted name f) lg (omega arith))

-- checkDefault counts one error for each basic value that is not zero and lies at most three levels deep,
-- and nothing else.
check_default_count :
    (v : Value) (lg : Labgob)
    → (check_default (some v) lg).error_count ≡ lg.error_count + set_values (prune 3 v)
unfolding check_default
check_default_count v lg = default_count v 3 1 "" lg refl
