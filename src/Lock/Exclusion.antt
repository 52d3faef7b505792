-- ===== src/Lock/Exclusion.antt =====
-- kvsrv1/lock/lock.go: mutual exclusion, and the end of Release, in every reachable state.
use linearizable_kv_store.Prelude.{
  ℕ, suc, ◌+◌, ◌^◌, ◌<◌, ◌≡◌, ◌≢◌, true, false, Bool, String, Option, some, arith, ◌⊎◌, inl, inr,
  refl, sym, ◌∙◌, ap, ◌==◌, ==_iff, eq_iff, subst, Bool-cases,
}
use mathlib.Core.Option.{some-injective}
use linearizable_kv_store.Rpc.{Err, ok, err_maybe, GetReply}
use linearizable_kv_store.KvServer.{KvServer, KvEntry}
use linearizable_kv_store.Lock.{
  Lock, available, Pc, idle, release_put, release_put_got, release_check_got, System, Step, step,
  Reach, begin, next, User, Move, start, after_get, after_acquire_put, after_acquire_check, release,
  after_release_put, after_release_check, make, call_acquire, call_release, get_lock, got_lock,
  put_id, did_put_id, get_check, got_check, put_available, did_put_available, get_released,
  got_released,
}
use linearizable_kv_store.Lock.Claims.{Owns, Claim, Fits, Change, Change-Claim, Change-Fits}
use linearizable_kv_store.Lock.Moves.{Move-Change}
use linearizable_kv_store.Lock.Own.{Move-Claim}

-- The random values that the users draw: all different, and none is "available".
pub record AreIds (ids : ℕ → String) : Type 0 where
  pub differ : (i j : ℕ) → ids i ≡ ids j → i ≡ j
  pub free : (i : ℕ) → available ≢ ids i

record Inv (key : String) (ids : ℕ → String) (n : ℕ) (s : System) : Type 0 where
  fits : Fits (s.server.store key) n
  at_key : (i : ℕ) → (s.users i).lock.key ≡ key
  at_id : (i : ℕ) → (s.users i).lock.id ≡ ids i
  claims : (i : ℕ) → Claim (s.server.store key) (s.users i).lock (s.users i).pc

-- A step changes neither the key nor the id of a lock.
Move-key :
    {kv : KvServer} {lk : Lock} {kv' : KvServer} {pc : Pc} {u : User}
    → Move kv lk pc kv' u
    → (u.lock.key ≡ lk.key) × (u.lock.id ≡ lk.id)
unfolding after_get after_acquire_put after_acquire_check release after_release_put
    after_release_check
Move-key make = (refl, refl)
Move-key (call_acquire h) = (refl, refl)
Move-key call_release = ground arith
Move-key get_lock = (refl, refl)
Move-key got_lock = ground arith
Move-key (put_id r) = (refl, refl)
Move-key did_put_id = ground arith
Move-key get_check = (refl, refl)
Move-key got_check = ground arith
Move-key (put_available r) = (refl, refl)
Move-key did_put_available = ground arith
Move-key get_released = (refl, refl)
Move-key got_released = ground arith

module _ {key : String} {n : ℕ} (kv kv' : KvServer) (lk : Lock) (pc : Pc) (u : User) where
  own-Claim :
      lk.key ≡ key
      → Move kv lk pc kv' u
      → n + 1 < 2 ^ 64
      → available ≢ lk.id
      → Fits (kv.store key) n
      → Claim (kv.store key) lk pc
      → Claim (kv'.store key) u.lock u.pc
  own-Claim at mv room ne =
      subst (λ k. Fits (kv.store k) n → Claim (kv.store k) lk pc → Claim (kv'.store k) u.lock u.pc)
        at (λ fits c. Move-Claim kv lk mv fits room ne c)

  change :
      (id : String)
      → lk.key ≡ key
      → Move kv lk pc kv' u
      → n + 1 < 2 ^ 64
      → available ≢ id
      → lk.id ≢ id
      → Fits (kv.store key) n
      → Claim (kv.store key) lk pc
      → Change id (kv.store key) (kv'.store key)
  change id at mv room na ni =
      subst
        (λ k. Fits (kv.store k) n → Claim (kv.store k) lk pc → Change id (kv.store k) (kv'.store k))
        at (λ fits c. Move-Change kv lk mv id fits room na ni c)

differs :
    {ids : ℕ → String} (good : AreIds ids) (i j : ℕ) {x : String}
    → x ≡ ids i
    → (i == j) ≡ false
    → x ≢ ids j
differs good i j p q r = not_self (good.differ i j (sym p ∙ r))
  where
    not_self : i ≡ j → ⊥
    not_self e = ground arith

module _ {key : String} {ids : ℕ → String} (good : AreIds ids) where
  Inv-start : Inv key ids 0 (start key ids)
  unfolding start
  Inv-start = record {
    fits = λ e p. cc;
    at_key = λ i. refl;
    at_id = λ i. refl;
    claims = λ i. (refl, λ e p. cc);
  }

  Step-Inv :
      {n : ℕ} {s t : System} → n + 1 < 2 ^ 64 → Step s t → Inv key ids n s → Inv key ids (suc n) t
  Step-Inv {n} {s} room (step i {kv} {u} mv) inv = record {
    fits = Change-Fits (seen (suc i) (ground arith)) inv.fits;
    at_key = λ j. elim (Bool-cases (i == j)) [
      | inl p ↦ rw p ((Move-key mv).0 ∙ inv.at_key i)
      | inr p ↦ rw p (inv.at_key j)
    ];
    at_id = λ j. elim (Bool-cases (i == j)) [
      | inl p ↦ rw p ((Move-key mv).1 ∙ inv.at_id i ∙ ap ids ((==_iff i j).0 p))
      | inr p ↦ rw p (inv.at_id j)
    ];
    claims = λ j. elim (Bool-cases (i == j)) [
      | inl p ↦ rw p (
          own-Claim s.server kv _ _ u (inv.at_key i) mv room (rw (inv.at_id i) (good.free i))
            inv.fits (inv.claims i))
      | inr p ↦ rw p (
          Change-Claim (s.users j).lock (s.users j).pc (rw (inv.at_id j) (good.free j))
            (rw (inv.at_id j) (seen j p)) (inv.claims j))
    ];
  }
    where
      seen : (j : ℕ) → (i == j) ≡ false → Change (ids j) (s.server.store key) (kv.store key)
      seen j p =
          change s.server kv _ _ u (ids j) (inv.at_key i) mv room (good.free j)
            (differs good i j (inv.at_id i) p) inv.fits (inv.claims i)

  Reach-Inv : {n : ℕ} {s : System} → n < 2 ^ 64 → Reach key ids n s → Inv key ids n s
  Reach-Inv room begin = Inv-start
  Reach-Inv room (next r st) = Step-Inv (omega arith) st (Reach-Inv (omega arith) r)

-- A user is in its critical section from the return of its Acquire to the first Put of its Release.
critical_at : Pc → Bool → Bool
critical_at idle held = held
critical_at release_put held = true
critical_at _ held = false

unfoldable pub critical : User → Bool
unfolding critical_at
critical u = critical_at u.pc u.lock.held

critical-Owns :
    (cur : Option KvEntry) (lk : Lock) (pc : Pc)
    → critical_at pc lk.held ≡ true
    → Claim cur lk pc
    → Owns cur lk.id lk.version
unfolding critical_at
critical-Owns cur lk idle p c = c.0 p
critical-Owns cur lk release_put p c = c.1
critical-Owns cur lk _ p c = cc

released_lem :
    (lk : Lock) (g : GetReply)
    → g.err ≡ ok
    → g.value ≢ lk.id
    → after_release_check lk g ≡ (record lk { held = false }, idle)
unfolding after_release_check
released_lem lk g fine ne = ground (arith, eq_iff g.value lk.id)

module _ {key : String} {ids : ℕ → String} (good : AreIds ids) {n : ℕ} {s : System} where
  -- While a user is in its critical section, the lock's key holds that user's id under the version
  -- that the user's lock remembers, after fewer than 2 ^ 64 steps of users whose ids are different and
  -- not "available".
  pub critical_fenced :
      n < 2 ^ 64
      → Reach key ids n s
      → (i : ℕ) → critical (s.users i) ≡ true
      → s.server.store key ≡ some (record { value = ids i; version = (s.users i).lock.version })
  unfolding critical
  critical_fenced room r i p =
      let inv = Reach-Inv good room r in
      critical-Owns _ (s.users i).lock (s.users i).pc p (inv.claims i)
      ∙ ap (λ x. some (record { value = x; version = (s.users i).lock.version })) (inv.at_id i)

  -- Two users of one lock are never in their critical sections together, whatever the network loses,
  -- in any interleaving of fewer than 2 ^ 64 steps, if the ids are different and none is "available".
  pub mutual_exclusion :
      n < 2 ^ 64
      → Reach key ids n s
      → (i j : ℕ) → critical (s.users i) ≡ true
      → critical (s.users j) ≡ true
      → i ≡ j
  mutual_exclusion room r i j p q = good.differ i j (
      ap (λ (t : KvEntry). t.value)
        (some-injective _ _ (sym (critical_fenced room r i p) ∙ critical_fenced room r j q)))

  -- Release never repeats its loop: its Put is reported OK or ErrMaybe, and the Get that follows
  -- ErrMaybe shows that the lock has been given up, after fewer than 2 ^ 64 steps of users whose ids
  -- are different and not "available".
  pub release_ends :
      n < 2 ^ 64
      → Reach key ids n s
      → (i : ℕ)
      → ((e : Err) → (s.users i).pc ≡ release_put_got e → (e ≡ ok) ⊎ (e ≡ err_maybe))
        × ((r : GetReply)
            → (s.users i).pc ≡ release_check_got r
            → after_release_check (s.users i).lock r
              ≡ (record (s.users i).lock { held = false }, idle))
  release_ends room r i = (λ e p. (at p).2, λ g p. give_up g (at p))
    where
      at : {pc : Pc} → (s.users i).pc ≡ pc → Claim (s.server.store key) (s.users i).lock pc
      at p =
          subst (λ t. Claim (s.server.store key) (s.users i).lock t) p
            ((Reach-Inv good room r).claims i)

      give_up :
          (g : GetReply)
          → Claim (s.server.store key) (s.users i).lock (release_check_got g)
          → after_release_check (s.users i).lock g
            ≡ (record (s.users i).lock { held = false }, idle)
      give_up g (f, o, fine, ne) = released_lem (s.users i).lock g fine ne
