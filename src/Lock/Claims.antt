-- ===== src/Lock/Claims.antt =====
-- kvsrv1/lock/lock.go: what a user of the lock may rely on about the lock's key.
use linearizable_kv_store.Prelude.{
  ap, ◌∙◌, sym, ℕ, suc, ◌+◌, ◌≤◌, ◌≡◌, ◌≢◌, true, false, String, Option, none, some, arith, ◌⊎◌,
}
use mathlib.Core.Option.{some-injective}
use linearizable_kv_store.Rpc.{ok, err_maybe, Tversion, next_version}
use linearizable_kv_store.KvServer.{KvEntry}
use linearizable_kv_store.Lock.{
  Lock, available, Pc, making, idle, acquire_get, acquire_got, acquire_put, acquire_put_got,
  acquire_check, acquire_check_got, release_put, release_put_got, release_check, release_check_got,
}

abbrev pub entry : String → Tversion → KvEntry
entry value version = record { value = value; version = version }

-- The lock's key holds `id` under the version `v`.
abbrev pub Owns : Option KvEntry → String → Tversion → Type 0
Owns cur id v = cur ≡ some (entry id v)

abbrev pub NotMine : Option KvEntry → String → Type 0
NotMine cur id = (e : KvEntry) → cur ≡ some e → e.value ≢ id

-- The key is there, and what it holds is not `id`.
abbrev pub Others : Option KvEntry → String → Type 0
Others cur id = (e : KvEntry) × (cur ≡ some e) × (e.value ≢ id)

-- `x` was read under the version `v`: as long as the version is `v`, it is what the key holds.
abbrev pub Seen : Option KvEntry → Tversion → String → Type 0
Seen cur v x = (e : KvEntry) × (cur ≡ some e) × (v ≤ e.version) × (e.version ≡ v → e.value ≡ x)

abbrev pub Claim : Option KvEntry → Lock → Pc → Type 0
Claim cur lk making = (lk.held ≡ false) × NotMine cur lk.id
Claim cur lk idle =
    (lk.held ≡ true → Owns cur lk.id lk.version) × (lk.held ≡ false → NotMine cur lk.id)
Claim cur lk acquire_get = lk.held ≡ false
Claim cur lk (acquire_got r) =
    (lk.held ≡ false)
    × (r.err ≡ ok → Seen cur r.version r.value)
    × (r.err ≡ ok → r.value ≡ lk.id → Owns cur lk.id r.version)
Claim cur lk (acquire_put v) = (lk.held ≡ false) × Seen cur v available
Claim cur lk (acquire_put_got v e) = (lk.held ≡ false) × (e ≡ ok → Owns cur lk.id (next_version v))
Claim cur lk acquire_check = lk.held ≡ false
Claim cur lk (acquire_check_got r) =
    (lk.held ≡ false) × (r.err ≡ ok → r.value ≡ lk.id → Owns cur lk.id r.version)
Claim cur lk release_put = (lk.held ≡ true) × Owns cur lk.id lk.version
Claim cur lk (release_put_got e) =
    (lk.held ≡ true) × Others cur lk.id × ((e ≡ ok) ⊎ (e ≡ err_maybe))
Claim cur lk release_check = (lk.held ≡ true) × Others cur lk.id
Claim cur lk (release_check_got r) =
    (lk.held ≡ true) × Others cur lk.id × (r.err ≡ ok) × (r.value ≢ lk.id)

entry_value : {id : String} {v : Tversion} (e : KvEntry) → e ≡ entry id v → e.value ≡ id
entry_value e p = ap (λ (t : KvEntry). t.value) p

-- What a step of another user does to the key, seen by the user with `id`.
pub data Change (id : String) (cur cur' : Option KvEntry) : Type 0 where
  same : cur' ≡ cur → Change id cur cur'
  create : cur ≡ none → cur' ≡ some (entry available 1) → Change id cur cur'
  bump :
      (e e' : KvEntry)
      → cur ≡ some e
      → cur' ≡ some e'
      → e.value ≢ id
      → e'.value ≢ id
      → e'.version ≡ e.version + 1
      → Change id cur cur'

module _ {id : String} {cur cur' : Option KvEntry} (ch : Change id cur cur') where
  Owns-change : (v : Tversion) → Owns cur id v → Owns cur' id v
  Owns-change v o = elim ch [
    | same p ↦ p ∙ o
    | create p p' ↦ cc
    | bump e e' p p' m m' q ↦ absurd (m (entry_value e (some-injective _ _ (sym p ∙ o))))
  ]

  pub NotMine-change : available ≢ id → NotMine cur id → NotMine cur' id
  NotMine-change ne h = elim ch [
    | same p ↦ λ e q. h e (sym p ∙ q)
    | create p p' ↦ λ e q. rw (← some-injective _ _ (sym p' ∙ q)) ne
    | bump e e' p p' m m' w ↦ λ f q. rw (← some-injective _ _ (sym p' ∙ q)) m'
  ]

  Others-change : Others cur id → Others cur' id
  Others-change (f, q, h) = elim ch [
    | same p ↦ (f, p ∙ q, h)
    | create p p' ↦ cc
    | bump e e' p p' m m' w ↦ (e', p', m')
  ]

  Seen-change : (v : Tversion) (x : String) → Seen cur v x → Seen cur' v x
  Seen-change v x (f, q, le, h) = elim ch [
    | same p ↦ (f, p ∙ q, le, h)
    | create p p' ↦ cc
    | bump e e' p p' m m' w ↦
        let same_entry : e ≡ f = some-injective _ _ (sym p ∙ q) in
        let old : e.version ≡ f.version = ap (λ (t : KvEntry). t.version) same_entry in
        (e', p', omega arith, λ now. absurd (omega arith))
  ]

-- Claims are stable under what other users do.
pub Change-Claim :
    {cur cur' : Option KvEntry} (lk : Lock) (pc : Pc)
    → available ≢ lk.id
    → Change lk.id cur cur'
    → Claim cur lk pc
    → Claim cur' lk pc
Change-Claim lk making ne ch (f, h) = (f, NotMine-change ch ne h)
Change-Claim lk idle ne ch (f, h) =
    (λ p. Owns-change ch lk.version (f p), λ p. NotMine-change ch ne (h p))
Change-Claim lk acquire_get ne ch h = h
Change-Claim lk (acquire_got r) ne ch (f, g, h) =
    (f, λ p. Seen-change ch r.version r.value (g p), λ p q. Owns-change ch r.version (h p q))
Change-Claim lk (acquire_put v) ne ch (f, h) = (f, Seen-change ch v available h)
Change-Claim lk (acquire_put_got v e) ne ch (f, h) = (f, λ p. Owns-change ch (next_version v) (h p))
Change-Claim lk acquire_check ne ch h = h
Change-Claim lk (acquire_check_got r) ne ch (f, h) = (f, λ p q. Owns-change ch r.version (h p q))
Change-Claim lk release_put ne ch (f, h) = (f, Owns-change ch lk.version h)
Change-Claim lk (release_put_got e) ne ch (f, h, r) = (f, Others-change ch h, r)
Change-Claim lk release_check ne ch (f, h) = (f, Others-change ch h)
Change-Claim lk (release_check_got r) ne ch (f, h, p, q) = (f, Others-change ch h, p, q)

-- Versions of the key start at 1, and have not passed `n`.
abbrev pub Fits : Option KvEntry → ℕ → Type 0
Fits cur n = (e : KvEntry) → cur ≡ some e → (1 ≤ e.version) × (e.version ≤ n)

pub Change-Fits :
    {id : String} {n : ℕ} {cur cur' : Option KvEntry}
    → Change id cur cur'
    → Fits cur n
    → Fits cur' (suc n)
Change-Fits (same p) fits e q = let old = fits e (sym p ∙ q) in (old.0, omega arith)
Change-Fits (create p p') fits e q =
    let now : 1 ≡ e.version = ap (λ (t : KvEntry). t.version) (some-injective _ _ (sym p' ∙ q)) in
    (omega arith, omega arith)
Change-Fits (bump e e' p p' m m' w) fits f q =
    let now : e'.version ≡ f.version =
      ap (λ (t : KvEntry). t.version) (some-injective _ _ (sym p' ∙ q)) in
    let old = fits e p in (omega arith, omega arith)
