-- ===== src/Lock/Moves.antt =====
-- kvsrv1/lock/lock.go: a step of one user keeps what it and the others rely on.
use linearizable_kv_store.Prelude.{
  ℕ, ◌+◌, ◌^◌, ◌<◌, ◌≡◌, ◌≢◌, String, none, some, arith, inl, inr, refl, sym, eq_refl, Option-cases,
  ap,
}
use native.Mathlib.Decide.{ℕ_discrete}
use linearizable_kv_store.Rpc.{ok, err_version, Tversion, PutArgs, PutReply, zero_put_reply}
use linearizable_kv_store.KvServer.{KvServer, KvEntry, put}
use linearizable_kv_store.Lock.{
  Lock, available, Pc, Move, make, call_acquire, call_release, get_lock, got_lock, put_id,
  did_put_id, get_check, got_check, put_available, did_put_available, get_released, got_released,
  make_args, acquire_args, release_args, User,
}
use linearizable_kv_store.Lock.Claims.{entry, Owns, Seen, Claim, Fits, Change, same, create, bump}

module _ (kv : KvServer) (lk : Lock) where
  -- A Put on the lock's key, by what the key holds.
  pub put_missing :
      kv.store lk.key ≡ none
      → (put kv (make_args lk) zero_put_reply).0.store lk.key ≡ some (entry available 1)
  unfolding put
  put_missing p = ground (arith, eq_refl lk.key)

  pub put_matching :
      (value : String) (e : KvEntry)
      → kv.store lk.key ≡ some e
      → e.version + 1 < 2 ^ 64
      → let args : PutArgs = record { key = lk.key; value = value; version = e.version } in
        ((put kv args zero_put_reply).0.store lk.key ≡ some (entry value (e.version + 1)))
        × ((put kv args zero_put_reply).1.err ≡ ok)
  unfolding put
  put_matching value e p room = ground (arith, eq_refl lk.key)

  pub put_differing :
      (value : String) (v : Tversion) (e : KvEntry)
      → kv.store lk.key ≡ some e
      → v ≢ e.version
      → let args : PutArgs = record { key = lk.key; value = value; version = v } in
        put kv args zero_put_reply ≡ (kv, record { err = err_version })
  unfolding put
  put_differing value v e p ne = ground arith

  pub make-Change :
      {n : ℕ} (id : String)
      → Fits (kv.store lk.key) n
      → Change id (kv.store lk.key) ((put kv (make_args lk) zero_put_reply).0.store lk.key)
  make-Change id fits = elim (Option-cases (kv.store lk.key)) [
    | inl p ↦ create p (put_missing p)
    | inr (e, p) ↦
        let pos = fits e p in
        same (
          ap (λ (t : KvServer × PutReply). t.0.store lk.key)
            (put_differing available 0 e p (omega arith)))
  ]

  put_id-Change :
      {n : ℕ} (id : String) (v : Tversion)
      → Fits (kv.store lk.key) n
      → n + 1 < 2 ^ 64
      → available ≢ id
      → lk.id ≢ id
      → Seen (kv.store lk.key) v available
      → Change id (kv.store lk.key) ((put kv (acquire_args lk v) zero_put_reply).0.store lk.key)
  put_id-Change id v fits room na ni (e, p, le, h) = elim (ℕ_discrete e.version v) [
    | yes q ↦
        let pos = fits e p in
        bump e (entry lk.id (e.version + 1)) p (rw (← q) (put_matching lk.id e p (omega arith)).0)
          (rw (h q) na) ni refl
    | no q ↦ same (
        ap (λ (t : KvServer × PutReply). t.0.store lk.key)
          (put_differing lk.id v e p (λ w. q (sym w))))
  ]

  put-available-Change :
      {n : ℕ} (id : String)
      → Fits (kv.store lk.key) n
      → n + 1 < 2 ^ 64
      → available ≢ id
      → lk.id ≢ id
      → Owns (kv.store lk.key) lk.id lk.version
      → Change id (kv.store lk.key) ((put kv (release_args lk) zero_put_reply).0.store lk.key)
  put-available-Change id fits room na ni o =
      let pos = fits (entry lk.id lk.version) o in
      bump (entry lk.id lk.version) (entry available (lk.version + 1)) o
        (put_matching available (entry lk.id lk.version) o (omega arith)).0 ni na refl

  -- A step of one user is, for every other, a change that its claims withstand.
  pub Move-Change :
      {n : ℕ} {pc : Pc} {kv' : KvServer} {u : User}
      → Move kv lk pc kv' u
      → (id : String) → Fits (kv.store lk.key) n
      → n + 1 < 2 ^ 64
      → available ≢ id
      → lk.id ≢ id
      → Claim (kv.store lk.key) lk pc
      → Change id (kv.store lk.key) (kv'.store lk.key)
  Move-Change make id fits room na ni c = make-Change id fits
  Move-Change (call_acquire h) id fits room na ni c = same refl
  Move-Change call_release id fits room na ni c = same refl
  Move-Change get_lock id fits room na ni c = same refl
  Move-Change got_lock id fits room na ni c = same refl
  Move-Change (put_id {v} r) id fits room na ni c = put_id-Change id v fits room na ni c.1
  Move-Change did_put_id id fits room na ni c = same refl
  Move-Change get_check id fits room na ni c = same refl
  Move-Change got_check id fits room na ni c = same refl
  Move-Change (put_available r) id fits room na ni c = put-available-Change id fits room na ni c.1
  Move-Change did_put_available id fits room na ni c = same refl
  Move-Change get_released id fits room na ni c = same refl
  Move-Change got_released id fits room na ni c = same refl
