-- ===== src/Lock/Own.antt =====
-- kvsrv1/lock/lock.go: a step of a user establishes its own next claim.
use linearizable_kv_store.Prelude.{
  ℕ, ◌+◌, ◌^◌, ◌<◌, ◌≡◌, ◌≢◌, Bool, not, if◌then◌else◌, true, false, String, Option, some, arith,
  ◌⊎◌, inl, inr, refl, sym, ◌∙◌, eq_iff, str_eq, Option-cases, Bool-cases, ap,
}
use native.Mathlib.Decide.{ℕ_discrete}
use mathlib.Core.Option.{some-injective}
use linearizable_kv_store.Rpc.{
  Err, ok, err_maybe, err_version, Tversion, PutReply, GetReply, zero_put_reply, zero_get_reply,
}
use linearizable_kv_store.KvServer.{KvServer, KvEntry, put, get}
use linearizable_kv_store.Clerk.Linear.{Reports, as_is, maybe_done, maybe_not}
use linearizable_kv_store.Lock.{
  is_ok, Lock, available, Pc, idle, acquire_got, acquire_put, acquire_put_got, acquire_check_got,
  release_put, release_put_got, release_check_got, Move, make, call_acquire, call_release, get_lock,
  got_lock, put_id, did_put_id, get_check, got_check, put_available, did_put_available,
  get_released, got_released, acquire_args, release_args, User, user, after_get, after_acquire_put,
  after_acquire_check, release, after_release_put, after_release_check,
}
use linearizable_kv_store.Lock.Claims.{entry, Owns, Others, Seen, Claim, Fits, NotMine-change}
use linearizable_kv_store.Lock.Moves.{make-Change, put_matching, put_differing}

abbrev ClaimU : Option KvEntry → User → Type 0
ClaimU cur u = Claim cur u.lock u.pc

is_ok-eq : {e : Err} → is_ok e ≡ true → e ≡ ok
unfolding is_ok
is_ok-eq p = ground arith

str_ne : {a b : String} → a ≢ b → str_eq a b ≡ false
str_ne {a} {b} ne = ground (arith, eq_iff a b)

Reports-not_ok : {r e : Err} → r ≡ err_version → Reports r e → e ≡ ok → ⊥
Reports-not_ok p (as_is q) d = cc
Reports-not_ok p (maybe_done q m) d = cc
Reports-not_ok p (maybe_not q m) d = cc

Reports-ok : {r e : Err} → r ≡ ok → Reports r e → (e ≡ ok) ⊎ (e ≡ err_maybe)
Reports-ok p (as_is q) = inl (q ∙ p)
Reports-ok p (maybe_done q m) = inr q
Reports-ok p (maybe_not q m) = inr q

module _ (kv : KvServer) (lk : Lock) where
  abbrev cur : Option KvEntry
  cur = kv.store lk.key

  abbrev read : GetReply
  read = get kv (record { key = lk.key }) zero_get_reply

  -- What a Get reads is what the key holds.
  read-Seen : read.err ≡ ok → Seen cur read.version read.value
  unfolding get
  read-Seen p = elim (Option-cases (kv.store lk.key)) [
    | inl q ↦ ground arith
    | inr (e, q) ↦ (e, q, ground arith, λ _. ground arith)
  ]

  read-Owns : read.err ≡ ok → read.value ≡ lk.id → Owns cur lk.id read.version
  unfolding get
  read-Owns p q = ground arith

  read-Others : Others cur lk.id → (read.err ≡ ok) × (read.value ≢ lk.id)
  unfolding get
  read-Others (e, p, ne) = (ground arith, ground arith)

  got_lock-Claim :
      (r : GetReply) → Claim cur lk (acquire_got r) → ClaimU cur (user (after_get lk r))
  unfolding after_get
  got_lock-Claim r (f, g, h) = elim (Bool-cases (is_ok r.err)) [
    | inl p ↦ elim (Bool-cases (str_eq r.value lk.id)) [
      | inl q ↦ rw (p, q) (λ _. h (is_ok-eq p) ((eq_iff _ _).0 q), λ w. cc)
      | inr q ↦ elim (Bool-cases (str_eq r.value available)) [
        | inl a ↦ rw (p, q, a) (f, rw (← (eq_iff _ _).0 a) (g (is_ok-eq p)))
        | inr a ↦ rw (p, q, a) f
      ]
    ]
    | inr p ↦ rw p f
  ]

  did_put_id-Claim :
      (v : Tversion) (e : Err)
      → Claim cur lk (acquire_put_got v e)
      → ClaimU cur (user (after_acquire_put lk v e))
  unfolding after_acquire_put
  did_put_id-Claim v ok (f, h) = (λ _. h refl, λ w. cc)
  did_put_id-Claim v err_maybe (f, h) = f
  did_put_id-Claim v _ (f, h) = f

  got_check-Claim :
      (r : GetReply)
      → Claim cur lk (acquire_check_got r)
      → ClaimU cur (user (after_acquire_check lk r))
  unfolding after_acquire_check
  got_check-Claim r (f, h) = elim (Bool-cases (is_ok r.err)) [
    | inl p ↦ elim (Bool-cases (str_eq r.value lk.id)) [
      | inl q ↦ rw (p, q) (λ _. h (is_ok-eq p) ((eq_iff _ _).0 q), λ w. cc)
      | inr q ↦ rw (p, q) f
    ]
    | inr p ↦ rw p f
  ]

  release-Claim : Claim cur lk idle → ClaimU cur (user (release lk))
  unfolding release
  release-Claim (h, g) = go lk.held refl
    where
      go :
          (b : Bool)
          → lk.held ≡ b
          → ClaimU cur (user (if not b then (lk, idle) else (lk, release_put)))
      go true p = (p, h p)
      go false p = (h, g)

  did_put_available-Claim :
      (e : Err) → Claim cur lk (release_put_got e) → ClaimU cur (user (after_release_put lk e))
  unfolding after_release_put
  did_put_available-Claim ok (f, (e, p, ne), r) =
      (λ w. cc, λ _ e' q. rw (← some-injective _ _ (sym p ∙ q)) ne)
  did_put_available-Claim err_maybe (f, o, r) = (f, o)
  did_put_available-Claim _ (f, o, inl r) = cc
  did_put_available-Claim _ (f, o, inr r) = cc

  got_released-Claim :
      (r : GetReply)
      → Claim cur lk (release_check_got r)
      → ClaimU cur (user (after_release_check lk r))
  unfolding after_release_check
  got_released-Claim r (f, (e, p, ne), fine, differs) =
      rw (fine, str_ne differs) (λ w. cc, λ _ e' q. rw (← some-injective _ _ (sym p ∙ q)) ne)

  put_id-Claim :
      {n : ℕ} (v : Tversion) (e : Err)
      → Fits cur n
      → n + 1 < 2 ^ 64
      → Reports (put kv (acquire_args lk v) zero_put_reply).1.err e
      → Claim cur lk (acquire_put v)
      → Claim ((put kv (acquire_args lk v) zero_put_reply).0.store lk.key) lk (acquire_put_got v e)
  put_id-Claim v e fits room r (f, (c, p, le, h)) = (
    f,
    λ done. elim (ℕ_discrete c.version v) [
      | yes q ↦
          let pos = fits c p in
          rw (← q) (
            (put_matching kv lk lk.id c p (omega arith)).0
            ∙ ap (λ t. some (entry lk.id t)) (omega arith))
      | no q ↦ absurd (
          Reports-not_ok
            (ap (λ (t : KvServer × PutReply). t.1.err)
              (put_differing kv lk lk.id v c p (λ w. q (sym w))))
            r done)
    ],
  )

  put-available-Claim :
      {n : ℕ} (e : Err)
      → Fits cur n
      → n + 1 < 2 ^ 64
      → available ≢ lk.id
      → Reports (put kv (release_args lk) zero_put_reply).1.err e
      → Claim cur lk release_put
      → Claim ((put kv (release_args lk) zero_put_reply).0.store lk.key) lk (release_put_got e)
  put-available-Claim e fits room ne r (f, o) =
      let pos = fits (entry lk.id lk.version) o in
      let (stored, done) = put_matching kv lk available (entry lk.id lk.version) o (omega arith) in
      (f, (entry available (lk.version + 1), stored, ne), Reports-ok done r)

  -- The claim of a user's next place holds at the server that its step leaves.
  pub Move-Claim :
      {n : ℕ} {pc : Pc} {kv' : KvServer} {u : User}
      → Move kv lk pc kv' u
      → Fits cur n
      → n + 1 < 2 ^ 64
      → available ≢ lk.id
      → Claim cur lk pc
      → Claim (kv'.store lk.key) u.lock u.pc
  Move-Claim make fits room ne (f, m) =
      (λ w. cc, λ _. NotMine-change (make-Change kv lk lk.id fits) ne m)
  Move-Claim (call_acquire h) fits room ne c = h
  Move-Claim call_release fits room ne c = release-Claim c
  Move-Claim get_lock fits room ne c = (c, read-Seen, read-Owns)
  Move-Claim (got_lock {r}) fits room ne c = got_lock-Claim r c
  Move-Claim (put_id {v} {e} r) fits room ne c = put_id-Claim v e fits room r c
  Move-Claim (did_put_id {v} {e}) fits room ne c = did_put_id-Claim v e c
  Move-Claim get_check fits room ne c = (c, read-Owns)
  Move-Claim (got_check {r}) fits room ne c = got_check-Claim r c
  Move-Claim (put_available {e} r) fits room ne c = put-available-Claim e fits room ne r c
  Move-Claim (did_put_available {e}) fits room ne c = did_put_available-Claim e c
  Move-Claim get_released fits room ne (f, o) =
      let (fine, differs) = read-Others o in (f, o, fine, differs)
  Move-Claim (got_released {r}) fits room ne c = got_released-Claim r c
