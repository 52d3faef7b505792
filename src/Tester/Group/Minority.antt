-- ===== src/Tester/Group/Minority.antt =====
-- tester1/group.go: MakePartition on a group with an odd number of servers, and Partition after it.
use linearizable_kv_store.Prelude.{
  ℕ, zero, suc, ◌+◌, ◌-◌, ◌*◌, ◌/◌, ◌<◌, ◌≡◌, refl, sym, ap, ◌∙◌, subst, ◌&&◌, ◌||◌, not, ◌==◌,
  ==_iff, ltb, ltb→lt, Bool-cases, Bool, true, false, some, List, [], ◌∷◌, String, length,
  get_elem?, get_elem?_lt, ◌⊎◌, arith, inl, inr,
}
use mathlib.Core.Option.{some-injective, none-ne-some}
use linearizable_kv_store.Prelude.Assoc.{mem}
use linearizable_kv_store.Tester.Group.{make_partition, ServerGrp, partition}
use linearizable_kv_store.Labrpc.{read_endname_info}
use linearizable_kv_store.Tester.Group.View.{View, Below, Shows}
use linearizable_kv_store.Tester.Group.Split.{Disjoint, split, partition-split}
use linearizable_kv_store.Tester.Group.Dealing.{nth, before, dealt, new-Dealt, last_is-some}

-- What MakePartition returns, entry by entry.
record Parts (k l : ℕ) (p1 p2 : List ℕ) : Type 0 where
  len1 : length p1 ≡ k + 1
  len2 : length p2 ≡ k
  first : (t : ℕ) → t < k + 1 → get_elem? p1 t ≡ some (nth l t)
  second : (t : ℕ) → t + 1 < k → get_elem? p2 t ≡ some (nth l (k + 1 + t))
  last : get_elem? p2 (k - 1) ≡ some l

make_partition-Parts :
    (k l : ℕ)
    → 0 < k
    → l < 2 * k + 1
    → (p1 p2 : List ℕ) × (make_partition (2 * k + 1) l ≡ some (p1, p2)) × Parts k l p1 p2
unfolding make_partition
make_partition-Parts k l hk hl =
    let (h, e, d) = dealt k l (2 * k + 1) _ hl (omega arith) (new-Dealt k l) in
    let (p2, e2, len, get) = last_is-some l h.p2 (omega (arith, d.len2)) in
    (
      h.p1,
      p2,
      rw (half k, e, e2) refl,
      record {
        len1 = d.len1;
        len2 = len ∙ d.len2;
        first = λ t ht. d.first t (all t ht (d.count)) ht;
        second = λ t ht. get t ∙ ground (arith, d.len2, d.count, d.second t);
        last = get (k - 1) ∙ ground (arith, d.len2);
      },
    )
  where
    half : (k : ℕ) → (2 * k + 1) / 2 ≡ k
    half k = omega arith

    all : (t : ℕ) → t < k + 1 → {j : ℕ} → j ≡ before l (2 * k + 1) → t < j
    all t ht c = ground arith

mem_of_get : (xs : List ℕ) (t x : ℕ) → get_elem? xs t ≡ some x → mem x xs ≡ true
mem_of_get [] t x h = absurd (none-ne-some _ h)
mem_of_get (y ∷ xs) zero x h = ground (arith, some-injective y x h)
mem_of_get (y ∷ xs) (suc t) x h = ground (arith, mem_of_get xs t x h)

get_of_mem : (xs : List ℕ) (x : ℕ) → mem x xs ≡ true → (t : ℕ) × (get_elem? xs t ≡ some x)
get_of_mem [] x h = absurd (cc)
get_of_mem (y ∷ xs) x h = elim (Bool-cases (x == y)) [
  | inl p ↦ (0, ap some (sym ((==_iff x y).0 p)))
  | inr p ↦ let (t, e) = get_of_mem xs x (rw p at h) in (suc t, e)
]

get_elem?-Below : (n : ℕ) (xs : List ℕ) → ((t x : ℕ) → get_elem? xs t ≡ some x → x < n) → Below n xs
get_elem?-Below n [] h = tt
get_elem?-Below n (x ∷ xs) h = (h 0 x refl, get_elem?-Below n xs (λ t. h (suc t)))

-- Where a server is in the first slice, and in the second.
in_first :
    {k l : ℕ} {p1 p2 : List ℕ} (t x : ℕ)
    → Parts k l p1 p2
    → get_elem? p1 t ≡ some x
    → (t < k + 1) × (x ≡ nth l t)
in_first {p1 = p1} t x p h =
    let below = subst (λ n. t < n) p.len1 (get_elem?_lt p1 t h) in
    (below, some-injective x _ (sym h ∙ p.first t below))

in_second :
    {k l : ℕ} {p1 p2 : List ℕ} (t x : ℕ)
    → 0 < k
    → Parts k l p1 p2
    → get_elem? p2 t ≡ some x
    → (x ≡ l) ⊎ ((t + 1 < k) × (x ≡ nth l (k + 1 + t)))
in_second {k} {l} {p2 = p2} t x hk p h = elim (Bool-cases (t == k - 1)) [
  | inl q ↦ inl (some-injective x l (sym h ∙ ap (get_elem? p2) ((==_iff t (k - 1)).0 q) ∙ p.last))
  | inr q ↦
      let below = subst (λ n. t < n) p.len2 (get_elem?_lt p2 t h) in
      let sooner : t + 1 < k = ground (arith, below) in
      inr (sooner, some-injective x _ (sym h ∙ p.second t sooner))
]

Parts-Disjoint : {k l : ℕ} {p1 p2 : List ℕ} → 0 < k → Parts k l p1 p2 → Disjoint p1 p2
Parts-Disjoint {k} {l} {p1} {p2} hk p a = elim (Bool-cases (mem a p1)) [
  | inr q ↦ rw q refl
  | inl q ↦ elim (Bool-cases (mem a p2)) [
    | inr r ↦ rw (q, r) refl
    | inl r ↦
        let (t, e) = get_of_mem p1 a q in
        let (u, f) = get_of_mem p2 a r in
        let (ht, et) = in_first t a p e in absurd (apart t u ht et (in_second u a hk p f))
  ]
]
  where
    apart :
        (t u : ℕ)
        → t < k + 1
        → a ≡ nth l t
        → ((a ≡ l) ⊎ ((u + 1 < k) × (a ≡ nth l (k + 1 + u))))
        → ⊥
    apart t u ht et (inl e) = ground (arith, et, e)
    apart t u ht et (inr (hu, eu)) = ground (arith, et, eu)

Parts-Below :
    {k l : ℕ} {p1 p2 : List ℕ}
    → 0 < k
    → l < 2 * k + 1
    → Parts k l p1 p2
    → Below (2 * k + 1) p1 × Below (2 * k + 1) p2
Parts-Below {k} {l} {p1} {p2} hk hl p = (
  get_elem?-Below (2 * k + 1) p1 (λ t x h. first t x (in_first t x p h)),
  get_elem?-Below (2 * k + 1) p2 (λ t x h. second t x (in_second t x hk p h)),
)
  where
    first : (t x : ℕ) → ((t < k + 1) × (x ≡ nth l t)) → x < 2 * k + 1
    first t x (h, e) = ground (arith, e)

    second : (t x : ℕ) → ((x ≡ l) ⊎ ((t + 1 < k) × (x ≡ nth l (k + 1 + t)))) → x < 2 * k + 1
    second t x (inl e) = ground (arith, e)
    second t x (inr (h, e)) = ground (arith, e)

Parts-covers :
    {k l : ℕ} {p1 p2 : List ℕ} (i : ℕ)
    → 0 < k
    → l < 2 * k + 1
    → i < 2 * k + 1
    → Parts k l p1 p2
    → (mem i p1 || mem i p2) ≡ true
Parts-covers {k} {l} {p1} {p2} i hk hl hi p = elim (Bool-cases (i == l)) [
  | inl q ↦
      or_right (mem i p1) (mem_of_get p2 (k - 1) i (p.last ∙ ap some (sym ((==_iff i l).0 q))))
  | inr q ↦ elim (Bool-cases (ltb (before l i) (k + 1))) [
    | inl r ↦
        rw
          (mem_of_get p1 (before l i) i
            (p.first (before l i) (ltb→lt (before l i) (k + 1) r) ∙ ap some (nth_before q)))
          refl
    | inr r ↦ or_right (mem i p1) (
        mem_of_get p2 (before l i - (k + 1)) i
          (p.second (before l i - (k + 1)) (small q r) ∙ ap some (rest q r)))
  ]
]
  where
    or_right : (x : Bool) {y : Bool} → y ≡ true → (x || y) ≡ true
    or_right x h = ground (arith, h)

    nth_before : (i == l) ≡ false → nth l (before l i) ≡ i
    nth_before q = ground arith

    small : (i == l) ≡ false → ltb (before l i) (k + 1) ≡ false → before l i - (k + 1) + 1 < k
    small q r = ground arith

    rest :
        (i == l) ≡ false
        → ltb (before l i) (k + 1) ≡ false
        → nth l (k + 1 + (before l i - (k + 1))) ≡ i
    rest q r = ground arith

-- A group of `n` servers in two sides, the leader in the smaller one.
pub record Minority (n l : ℕ) (p1 p2 : List ℕ) : Type 0 where
  pub below1 : Below n p1
  pub below2 : Below n p2
  pub majority : length p1 ≡ n / 2 + 1
  pub minority : length p2 ≡ n / 2
  pub leader : mem l p2 ≡ true
  pub disjoint : Disjoint p1 p2
  pub covers : (i : ℕ) → i < n → (mem i p1 || mem i p2) ≡ true

-- In a group with an odd number of servers, three at least, MakePartition of a leader that is one of
-- them does not panic. Its two slices share no server, hold numbers of servers only, and hold every server, the
-- first is a majority and the second, which has one server less, has the leader.
pub make_partition-Minority :
    (k l : ℕ)
    → 0 < k
    → l < 2 * k + 1
    → (p1 p2 : List ℕ) × (make_partition (2 * k + 1) l ≡ some (p1, p2))
      × Minority (2 * k + 1) l p1 p2
make_partition-Minority k l hk hl =
    let (p1, p2, e, p) = make_partition-Parts k l hk hl in
    (
      p1,
      p2,
      e,
      record {
        below1 = (Parts-Below hk hl p).0;
        below2 = (Parts-Below hk hl p).1;
        majority = omega (arith, p.len1);
        minority = omega (arith, p.len2);
        leader = mem_of_get p2 (k - 1) l p.last;
        disjoint = Parts-Disjoint hk p;
        covers = λ i hi. Parts-covers i hk hl hi p;
      },
    )

side_of : (p q : Bool) → (p && q) ≡ false → (p || q) ≡ true → p ≡ not q
side_of p q h c = ground arith

same_side :
    (a b : ℕ) (p1 p2 : List ℕ) (v : View)
    → mem a p1 ≡ not (mem a p2)
    → mem b p1 ≡ not (mem b p2)
    → (split p1 p2 v).links a b ≡ ((mem a p2 && mem b p2) || (not (mem a p2) && not (mem b p2)))
unfolding split
same_side a b p1 p2 v ha hb = rw (ha, hb) (ground arith)

-- MakePartition of a leader and then Partition, in a group with an odd number of servers, three at least,
-- whose ends have different names: none of the two panics, the leader's side is the minority, and
-- then the end from one server to another is enabled on the network exactly where both are on one side,
-- whatever was connected before.
pub make_partition-partition :
    (k l a b : ℕ) (e : ℕ → ℕ → String) (sg : ServerGrp) (v : View)
    → 0 < k
    → l < 2 * k + 1
    → a < 2 * k + 1
    → b < 2 * k + 1
    → Shows (2 * k + 1) e sg v
    → (p1 p2 : List ℕ) × (sg' : ServerGrp) × (make_partition (2 * k + 1) l ≡ some (p1, p2))
      × (partition p1 p2 sg ≡ some sg')
      × Minority (2 * k + 1) l p1 p2
      × ((read_endname_info (e a b) sg'.net).enabled
          ≡ ((mem a p2 && mem b p2) || (not (mem a p2) && not (mem b p2))))
unfolding read_endname_info
make_partition-partition k l a b e sg v hk hl ha hb h =
    let (p1, p2, em, m) = make_partition-Minority k l hk hl in
    let (sg', ep, s) = partition-split (2 * k + 1) e p1 p2 sg v m.below1 m.below2 m.disjoint h in
    (
      p1,
      p2,
      sg',
      em,
      ep,
      m,
      s.shown a b ha hb
          ∙ same_side a b p1 p2 v (side_of (mem a p1) (mem a p2) (m.disjoint a) (m.covers a ha))
              (side_of (mem b p1) (mem b p2) (m.disjoint b) (m.covers b hb)),
    )
