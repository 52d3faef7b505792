-- ===== src/Labgob/Tests.antt =====
-- labgob/labgob.go: a list of numbers, whose type leads back to itself.
use linearizable_kv_store.Prelude.{ℕ, zero, suc, ◌≡◌, refl, true, false, some, [], ◌∷◌, arith}
use linearizable_kv_store.Prelude.Assoc.{mem}
use linearizable_kv_store.Labgob.{
  StructField, Kind, struct, container, other, Labgob, init, check_type, check_value, complain,
}
use linearizable_kv_store.Labgob.Types.{parts, Below, Passed}
use linearizable_kv_store.Labgob.Checked.{check_value-Passed}

abbrev next : StructField
next = record { name = "Next"; upper = true; typ = 1 }

abbrev val : StructField
val = record { name = "val"; upper = false; typ = 2 }

-- Type 0 has a pointer to itself, which is type 1, and an int, type 2, in a lower-case field.
abbrev kinds : ℕ → Kind
kinds zero = struct (next ∷ val ∷ [])
kinds (suc zero) = container 0
kinds (suc (suc t)) = other

typed : (t : ℕ) → Below 3 (parts (kinds t))
typed zero = (omega arith, (omega arith, tt))
typed (suc zero) = (omega arith, tt)
typed (suc (suc t)) = tt

one_error :
    check_value kinds 3 0 init
    ≡ some (record { error_count = 1; checked = 2 ∷ 1 ∷ 0 ∷ []; printed = "val" ∷ [] })
unfolding check_value check_type complain init
one_error = refl

check_value-Passed_example :
    (lg : Labgob) × (check_value kinds 3 0 init ≡ some lg)
    × Passed kinds 0 init lg
    × (mem 0 lg.checked ≡ true)
check_value-Passed_example = check_value-Passed 3 kinds typed 0 init (omega arith)
