-- ===== src/Lock/Tests.antt =====
-- A user that takes the lock, and the theorems at that run.
use Prim.Native.Char.{code}
use linearizable_kv_store.Prelude.{
  ℕ, zero, suc, String, ◌≡◌, ◌≢◌, ◌⊎◌, true, some, arith, ap, refl, false,
}
use linearizable_kv_store.Rpc.{Err, ok, err_maybe, GetReply}
use linearizable_kv_store.KvServer.{get, put}
use linearizable_kv_store.Clerk.Linear.{as_is, maybe_done}
use linearizable_kv_store.Lock.{
  available, idle, System, Reach, begin, next, step, start, release_put_got, release_check_got,
  make, call_acquire, get_lock, got_lock, put_id, did_put_id, call_release, put_available,
  did_put_available, get_released, after_get, after_acquire_put, after_release_put, release,
  after_release_check,
}
use linearizable_kv_store.Lock.Exclusion.{
  AreIds, critical, critical_fenced, mutual_exclusion, release_ends,
}

abbrev ids : ℕ → String
ids zero = ""
ids (suc n) = String.◌∷◌ "x" (ids n)

ids-differ : (i j : ℕ) → ids i ≡ ids j → i ≡ j
ids-differ zero zero p = refl
ids-differ zero (suc j) p = cc
ids-differ (suc i) zero p = cc
ids-differ (suc i) (suc j) p = ap suc (ids-differ i j (cc))

abbrev first : String → ℕ
first String.[] = 0
first (String.◌∷◌ c s) = code c

ids-free : (i : ℕ) → available ≢ ids i
ids-free zero p = cc
ids-free (suc i) p = absurd (omega (arith, ap first p))

ids-AreIds : AreIds ids
ids-AreIds = record { differ = ids-differ; free = ids-free }

-- User 1 makes its lock and acquires it.
abbrev taken : (s : System) × Reach "lock" ids 6 s
unfolding start after_get get put
taken = (
  _,
  next
      (next
        (next
          (next (next (next begin (step 1 make)) (step 1 (call_acquire refl))) (step 1 get_lock))
          (step 1 got_lock))
        (step 1 (put_id (as_is refl))))
      (step 1 did_put_id),
)

-- It releases the lock, is told ErrMaybe, and looks whether the lock is still its own.
abbrev checked : (s : System) × Reach "lock" ids 10 s
unfolding start after_get get put after_acquire_put release after_release_put
checked = (
  _,
  next
      (next
        (next (next taken.1 (step 1 call_release)) (step 1 (put_available (maybe_done refl refl))))
        (step 1 did_put_available))
      (step 1 get_released),
)

-- User 1 is in its critical section there.
taken_critical : critical (taken.0.users 1) ≡ true
unfolding critical start put get after_get after_acquire_put
taken_critical = refl

critical_fenced_example :
    taken.0.server.store "lock"
    ≡ some (record { value = ids 1; version = (taken.0.users 1).lock.version })
critical_fenced_example = critical_fenced ids-AreIds (omega arith) taken.1 1 taken_critical

mutual_exclusion_example : ◌≡◌ {A = ℕ} 1 1
mutual_exclusion_example =
    mutual_exclusion ids-AreIds (omega arith) taken.1 1 1 taken_critical taken_critical

release_ends_example :
    ((e : Err) → (checked.0.users 1).pc ≡ release_put_got e → (e ≡ ok) ⊎ (e ≡ err_maybe))
    × ((r : GetReply)
        → (checked.0.users 1).pc ≡ release_check_got r
        → after_release_check (checked.0.users 1).lock r
          ≡ (record (checked.0.users 1).lock { held = false }, idle))
release_ends_example = release_ends ids-AreIds (omega arith) checked.1 1
