-- ===== src/Labgob/Checked.antt =====
-- labgob/labgob.go: checkType ends on every type, and what it reports.
use linearizable_kv_store.Prelude.{
  ℕ, zero, suc, ◌+◌, ◌<◌, ◌≡◌, refl, sym, subst, ◌⊎◌, inl, inr, true, false, ◌==◌, ==_iff,
  Bool-cases, Option, some, List, [], ◌∷◌, arith,
}
use linearizable_kv_store.Prelude.Panic.{◌>>=◌, each}
use linearizable_kv_store.Prelude.Assoc.{mem}
use linearizable_kv_store.Labgob.{
  StructField, Kind, struct, container, map, other, Labgob, complain, check_type, check_value,
}
use linearizable_kv_store.Labgob.Types.{
  types_of, parts, lower, lowers, weight, Below, AllIn, rooms, rooms_le, rooms_mono, rooms_mark,
  Passed, Passed-refl, Passed-trans, complain-Passed,
}

module _ (n : ℕ) (kinds : ℕ → Kind) (typed : (t : ℕ) → Below n (parts (kinds t))) where
  -- What one call leaves: this type is checked.
  abbrev Done : ℕ → ℕ → Labgob → Type 0
  Done fuel t lg =
      (lg' : Labgob) × (check_type kinds fuel t lg ≡ some lg')
      × Passed kinds 0 lg lg'
      × (mem t lg'.checked ≡ true)

  -- The calls with this fuel, from every state with few enough types that are not checked.
  abbrev Calls : ℕ → Type 0
  Calls fuel = (t : ℕ) (lg : Labgob) → t < n → rooms n lg.checked < fuel → Done fuel t lg

  -- What the calls for the parts of a type leave.
  abbrev Parts : Option Labgob → ℕ → List ℕ → Labgob → Type 0
  Parts result pending ts lg =
      (lg' : Labgob) × (result ≡ some lg') × Passed kinds pending lg lg' × AllIn lg'.checked ts

  fields-Parts :
      (fuel : ℕ) (fs : List StructField) (lg : Labgob)
      → Calls fuel
      → Below n (types_of fs)
      → rooms n lg.checked < fuel
      → Parts
          (each (λ f lg. check_type kinds fuel f.typ (complain f lg)) fs lg)
          (lowers fs)
          (types_of fs)
          lg
  fields-Parts fuel [] lg ih b r = (lg, refl, Passed-refl kinds lg, tt)
  fields-Parts fuel (f ∷ fs) lg ih b r =
      let c = complain-Passed kinds f lg in
      let less = rooms_mono n lg.checked (complain f lg).checked c.grows in
      let (lg1, e1, p1, m1) = ih f.typ (complain f lg) b.0 (omega (arith, less)) in
      let q1 = Passed-trans kinds (lower f) 0 lg (complain f lg) lg1 c p1 in
      let (lg2, e2, p2, a2) =
        fields-Parts fuel fs lg1 ih b.1
          (omega (arith, rooms_mono n lg.checked lg1.checked q1.grows)) in
      (
        lg2,
        rw e1 e2,
        subst (λ k. Passed kinds k lg lg2) (omega arith)
            (Passed-trans kinds (lower f + 0) (lowers fs) lg lg1 lg2 q1 p2),
        (p2.grows f.typ m1, a2),
      )

  -- A type is marked, and then its parts are checked.
  mark-Passed :
      (t : ℕ) (lg lg' : Labgob)
      → mem t lg.checked ≡ false
      → Passed kinds (weight (kinds t)) (record lg { checked = t ∷ lg.checked }) lg'
      → AllIn lg'.checked (parts (kinds t))
      → Passed kinds 0 lg lg' × (mem t lg'.checked ≡ true)
  mark-Passed t lg lg' fresh p a = (
    record {
      grows = λ u h. p.grows u (ground (arith, h));
      once = λ d. p.once (fresh, d);
      counted = omega (arith, p.counted);
      closed = λ u h. split u (p.closed u h);
    },
    p.grows t (rw ((==_iff t t).1 refl) refl),
  )
    where
      split :
          (u : ℕ)
          → ((mem u (t ∷ lg.checked) ≡ true) ⊎ AllIn lg'.checked (parts (kinds u)))
          → (mem u lg.checked ≡ true) ⊎ AllIn lg'.checked (parts (kinds u))
      split u (inr h) = inr h
      split u (inl h) = elim (Bool-cases (u == t)) [
        | inl q ↦ inr (subst (λ k. AllIn lg'.checked (parts (kinds k))) (sym ((==_iff u t).0 q)) a)
        | inr q ↦ inl (rw q at h)
      ]

  kind-Parts :
      (fuel : ℕ) (k : Kind) (lg : Labgob)
      → Calls fuel
      → Below n (parts k)
      → rooms n lg.checked < fuel
      → Parts
          (elim k [
            | struct fs ↦ each (λ f lg. check_type kinds fuel f.typ (complain f lg)) fs lg
            | container e ↦ check_type kinds fuel e lg
            | map e k ↦ check_type kinds fuel e lg >>= check_type kinds fuel k
            | other ↦ some lg
          ])
          (weight k)
          (parts k)
          lg
  kind-Parts fuel (struct fs) lg ih b r = fields-Parts fuel fs lg ih b r
  kind-Parts fuel (container e) lg ih b r =
      let (lg1, e1, p1, m1) = ih e lg b.0 r in (lg1, e1, p1, (m1, tt))
  kind-Parts fuel (map e k) lg ih b r =
      let (lg1, e1, p1, m1) = ih e lg b.0 r in
      let (lg2, e2, p2, m2) =
        ih k lg1 b.1.0 (omega (arith, rooms_mono n lg.checked lg1.checked p1.grows)) in
      (lg2, rw e1 e2, Passed-trans kinds 0 0 lg lg1 lg2 p1 p2, (p2.grows e m1, (m2, tt)))
  kind-Parts fuel other lg ih b r = (lg, refl, Passed-refl kinds lg, tt)

  enough_fuel : (fuel : ℕ) → Calls fuel
  unfolding check_type
  enough_fuel zero t lg h r = absurd (omega arith)
  enough_fuel (suc fuel) t lg h r = elim (Bool-cases (mem t lg.checked)) [
    | inl p ↦ (lg, rw (p, check_type) refl, Passed-refl kinds lg, p)
    | inr p ↦
        let marked : Labgob = record lg { checked = t ∷ lg.checked } in
        let (lg1, e1, p1, a1) =
          kind-Parts fuel (kinds t) marked (enough_fuel fuel) (typed t)
            (omega (arith, rooms_mark n t lg.checked h p)) in
        let (q, m) = mark-Passed t lg lg1 p p1 a1 in (lg1, rw (p, check_type) e1, q, m)
  ]

  -- checkValue of a type ends, also where types lead back to themselves, with as much fuel as there are
  -- types and one call more. The type is then checked, with every type that it is made of, and so on for
  -- each type that has been added; no type is checked twice, and each lower-case field of an added type has been
  -- counted once as an error.
  pub check_value-Passed :
      (t : ℕ) (lg : Labgob)
      → t < n
      → (lg' : Labgob) × (check_value kinds n t lg ≡ some lg')
        × Passed kinds 0 lg lg'
        × (mem t lg'.checked ≡ true)
  unfolding check_value
  check_value-Passed t lg h = enough_fuel (n + 1) t lg h (omega (arith, rooms_le n lg.checked))
