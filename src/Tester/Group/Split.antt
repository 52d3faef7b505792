-- ===== src/Tester/Group/Split.antt =====
-- tester1/group.go: what Partition makes of a group.
use linearizable_kv_store.Prelude.{
  ℕ, ◌≡◌, refl, ap, ◌∙◌, ◌&&◌, ◌||◌, not, Bool-cases, true, false, some, List, [], ◌∷◌, String,
  if◌then◌else◌, arith, inl, inr,
}
use linearizable_kv_store.Prelude.Assoc.{mem}
use linearizable_kv_store.Tester.Group.{ServerGrp, side, partition}
use linearizable_kv_store.Tester.Group.View.{View, join, leave, Below, Shows}
use linearizable_kv_store.Tester.Group.View.Traced.{connect-join, disconnect-leave}

abbrev round : List ℕ → List ℕ → ℕ → View → View
unfolding join leave
round own other x v = join x own (leave x other v)

abbrev rounds : List ℕ → List ℕ → List ℕ → View → View
rounds own other [] v = v
rounds own other (x ∷ xs) v = rounds own other xs (round own other x v)

-- Who is on one side reaches exactly those of that side, and for the others nothing changes.
unfoldable pub split : List ℕ → List ℕ → View → View
split p1 p2 v = record {
  up = λ a. mem a p1 || mem a p2 || v.up a;
  links = λ a b.
      if (mem a p1 && mem b p1) || (mem a p2 && mem b p2)
      then true
      else if (mem a p1 && mem b p2) || (mem a p2 && mem b p1)
      then false
      else v.links a b;
}

abbrev pub Disjoint : List ℕ → List ℕ → Type 0
Disjoint p q = (a : ℕ) → (mem a p && mem a q) ≡ false

-- They are all on one side.
abbrev Within : List ℕ → List ℕ → Type 0
Within own [] = Unit
Within own (x ∷ xs) = (mem x own ≡ true) × Within own xs

rounds-up :
    (own other xs : List ℕ) (v : View) (a : ℕ) → (rounds own other xs v).up a ≡ (mem a xs || v.up a)
unfolding join leave
rounds-up own other [] v a = refl
rounds-up own other (x ∷ xs) v a = rounds-up own other xs (round own other x v) a ∙ ground arith

module _ (own other : List ℕ) (disjoint : Disjoint own other) where
  rounds-inside :
      (xs : List ℕ) (v : View) (a b : ℕ)
      → Within own xs
      → mem a own ≡ true
      → mem b own ≡ true
      → ((mem a xs && (mem b xs || v.up b)) || (mem b xs && (mem a xs || v.up a)) || v.links a b)
        ≡ true
      → (rounds own other xs v).links a b ≡ true
  unfolding join leave
  rounds-inside [] v a b w ha hb h = h
  rounds-inside (x ∷ xs) v a b w ha hb h =
      rounds-inside xs (round own other x v) a b w.1 ha hb
        (ground (arith, disjoint a, disjoint b, disjoint x))

  rounds-across :
      (xs : List ℕ) (v : View) (a b : ℕ)
      → Within own xs
      → mem a own ≡ true
      → mem b other ≡ true
      → (mem a xs || not (v.links a b)) ≡ true
      → (rounds own other xs v).links a b ≡ false
  unfolding join leave
  rounds-across [] v a b w ha hb h = ground arith
  rounds-across (x ∷ xs) v a b w ha hb h =
      rounds-across xs (round own other x v) a b w.1 ha hb
        (ground (arith, disjoint a, disjoint b, disjoint x))

  rounds-apart :
      (xs : List ℕ) (v : View) (a b : ℕ)
      → Within own xs
      → (mem a own && mem b own) ≡ false
      → (mem a own && mem b other) ≡ false
      → (mem b own && mem a other) ≡ false
      → (rounds own other xs v).links a b ≡ v.links a b
  unfolding join leave
  rounds-apart [] v a b w p q r = refl
  rounds-apart (x ∷ xs) v a b w p q r =
      rounds-apart xs (round own other x v) a b w.1 p q r ∙ ground (arith, w.0)

  rounds-across_back :
      (xs : List ℕ) (v : View) (a b : ℕ)
      → Within own xs
      → mem a own ≡ true
      → mem b other ≡ true
      → (mem a xs || not (v.links b a)) ≡ true
      → (rounds own other xs v).links b a ≡ false
  unfolding join leave
  rounds-across_back [] v a b w ha hb h = ground arith
  rounds-across_back (x ∷ xs) v a b w ha hb h =
      rounds-across_back xs (round own other x v) a b w.1 ha hb
        (ground (arith, disjoint a, disjoint b, disjoint x))

Within-later : (own xs : List ℕ) (x : ℕ) → Within own xs → Within (x ∷ own) xs
Within-later own [] x w = tt
Within-later own (y ∷ xs) x w = (ground (arith, w.0), Within-later own xs x w.1)

Within-self : (own : List ℕ) → Within own own
Within-self [] = tt
Within-self (x ∷ own) = (ground arith, Within-later own own x (Within-self own))

rounds-split :
    (p1 p2 : List ℕ) (v : View) (a b : ℕ)
    → Disjoint p1 p2
    → (rounds p2 p1 p2 (rounds p1 p2 p1 v)).links a b ≡ (split p1 p2 v).links a b
unfolding split
rounds-split p1 p2 v a b d = elim (Bool-cases (mem a p1 && mem b p1)) [
  | inl p ↦
      second (ground (arith, d a)) (ground (arith, d a)) (ground (arith, d b))
      ∙ rounds-inside p1 p2 d p1 v a b (Within-self p1) (ground arith) (ground arith) (ground arith)
      ∙ rw p refl
  | inr p ↦ elim (Bool-cases (mem a p2 && mem b p2)) [
    | inl q ↦
        rounds-inside p2 p1 back p2 (rounds p1 p2 p1 v) a b (Within-self p2) (ground arith)
          (ground arith) (ground arith)
        ∙ rw (p, q) refl
    | inr q ↦ elim (Bool-cases (mem a p1 && mem b p2)) [
      | inl r ↦
          rounds-across_back p2 p1 back p2 (rounds p1 p2 p1 v) b a (Within-self p2) (ground arith)
            (ground arith) (ground arith)
          ∙ rw (p, q, r) refl
      | inr r ↦ elim (Bool-cases (mem a p2 && mem b p1)) [
        | inl s ↦
            rounds-across p2 p1 back p2 (rounds p1 p2 p1 v) a b (Within-self p2) (ground arith)
              (ground arith) (ground arith)
            ∙ rw (p, q, r, s) refl
        | inr s ↦
            second q s (ground arith)
            ∙ rounds-apart p1 p2 d p1 v a b (Within-self p1) p r (ground arith)
            ∙ rw (p, q, r, s) refl
      ]
    ]
  ]
]
  where
    back : Disjoint p2 p1
    back c = ground (arith, d c)

    second :
        (mem a p2 && mem b p2) ≡ false
        → (mem a p2 && mem b p1) ≡ false
        → (mem b p2 && mem a p1) ≡ false
        → (rounds p2 p1 p2 (rounds p1 p2 p1 v)).links a b ≡ (rounds p1 p2 p1 v).links a b
    second = rounds-apart p2 p1 back p2 (rounds p1 p2 p1 v) a b (Within-self p2)

module _ (n : ℕ) (e : ℕ → ℕ → String) where
  side-rounds :
      (own other xs : List ℕ) (sg : ServerGrp) (v : View)
      → Below n own
      → Below n other
      → Below n xs
      → Shows n e sg v
      → (sg' : ServerGrp) × (side own other xs sg ≡ some sg')
        × Shows n e sg' (rounds own other xs v)
  unfolding side round join
  side-rounds own other [] sg v ho ht hx h = (sg, refl, h)
  side-rounds own other (x ∷ xs) sg v ho ht hx h =
      let (sg1, e1, h1) = disconnect-leave n e sg v x other hx.0 ht h in
      let (sg2, e2, h2) = connect-join n e sg1 (leave x other v) x own hx.0 ho h1 in
      let (sg3, e3, h3) = side-rounds own other xs sg2 (round own other x v) ho ht hx.1 h2 in
      (sg3, rw (e1, e2) e3, h3)

  -- Partition of servers of the group into two sides that share none does not panic, and makes of the
  -- ends exactly this, whoever was connected before: the servers of one side reach each other,
  -- none reaches one of the other side, the ends of all other servers are as before, and the servers of both sides
  -- count as connected.
  pub partition-split :
      (p1 p2 : List ℕ) (sg : ServerGrp) (v : View)
      → Below n p1
      → Below n p2
      → Disjoint p1 p2
      → Shows n e sg v
      → (sg' : ServerGrp) × (partition p1 p2 sg ≡ some sg') × Shows n e sg' (split p1 p2 v)
  unfolding partition split
  partition-split p1 p2 sg v h1 h2 d h =
      let (sg1, e1, s1) = side-rounds p1 p2 p1 sg v h1 h2 h1 h in
      let (sg2, e2, s2) = side-rounds p2 p1 p2 sg1 (rounds p1 p2 p1 v) h2 h1 h2 s1 in
      (
        sg2,
        rw e1 e2,
        record {
          named = s2.named;
          ups = λ i hi. s2.ups i hi ∙ ap some (ups i);
          shown = λ a b ha hb. s2.shown a b ha hb ∙ rounds-split p1 p2 v a b d;
        },
      )
    where
      ups : (i : ℕ) → (rounds p2 p1 p2 (rounds p1 p2 p1 v)).up i ≡ (split p1 p2 v).up i
      ups i = rounds-up p2 p1 p2 (rounds p1 p2 p1 v) i ∙ ground (arith, rounds-up p1 p2 p1 v i)
