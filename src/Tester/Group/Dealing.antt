-- ===== src/Tester/Group/Dealing.antt =====
-- tester1/group.go: the loop of MakePartition.
use linearizable_kv_store.Prelude.{
  ℕ, zero, suc, ◌+◌, ◌-◌, ◌*◌, ◌≤◌, ◌<◌, ◌≡◌, refl, sym, ap, ◌∙◌, ◌==◌, ltb, Bool-cases, some, List,
  [], ◌∷◌, length, get_elem?, if◌then◌else◌, arith, inl, inr,
}
use mathlib.Core.Option.{some-injective, none-ne-some}
use linearizable_kv_store.Prelude.Panic.{>>=-eq-some, each, each-append, assign, assign-some}
use linearizable_kv_store.Tester.Group.{range, replicate, Halves, deal, last_is}

-- The t-th server that is not `l`, and how many of those are below `i`.
abbrev pub nth : ℕ → ℕ → ℕ
nth l t = if ltb t l then t else t + 1

abbrev pub before : ℕ → ℕ → ℕ
before l i = if ltb l i then i - 1 else i

-- After the rounds for the servers below `i`.
pub record Dealt (k l i : ℕ) (h : Halves) : Type 0 where
  pub len1 : length h.p1 ≡ k + 1
  pub len2 : length h.p2 ≡ k
  pub count : h.j ≡ before l i
  pub first : (t : ℕ) → t < h.j → t < k + 1 → get_elem? h.p1 t ≡ some (nth l t)
  pub second : (t : ℕ) → k + 1 + t < h.j → get_elem? h.p2 t ≡ some (nth l (k + 1 + t))

length_of_get :
    {A : Type 0} (xs ys : List A) (i : ℕ) (v : A) → assign xs i v ≡ some ys → length ys ≡ length xs
length_of_get [] ys i v h = absurd (none-ne-some _ h)
length_of_get (x ∷ xs) ys zero v h = ap length (sym (some-injective _ _ h))
length_of_get (x ∷ xs) ys (suc i) v h =
    let (rest, e, f) = >>=-eq-some (assign xs i v) (λ rest. some (x ∷ rest)) h in
    ap length (sym (some-injective _ _ f)) ∙ ap suc (length_of_get xs rest i v e)

step-Dealt :
    (k l i : ℕ) (h : Halves)
    → l < 2 * k + 1
    → i < 2 * k + 1
    → Dealt k l i h
    → (h' : Halves) × (deal l i h ≡ some h') × Dealt k l (suc i) h'
unfolding deal
step-Dealt k l i h hl hi d = elim (Bool-cases (i == l)) [
  | inl p ↦ (
    h,
    rw p refl,
    record {
      len1 = d.len1;
      len2 = d.len2;
      count = ground (arith, d.count);
      first = d.first;
      second = d.second;
    },
  )
  | inr p ↦ elim (Bool-cases (ltb h.j (length h.p1))) [
    | inl q ↦
        let (p1, e, get) = assign-some h.p1 h.j i (ground arith) in
        (
          record h { p1 = p1; j = h.j + 1 },
          rw (p, q, e) refl,
          record {
            len1 = length_of_get h.p1 p1 h.j i e ∙ d.len1;
            len2 = d.len2;
            count = ground (arith, d.count);
            first = λ t ht hk. get t ∙ ground (arith, d.count, d.first t);
            second = λ t ht. absurd (ground (arith, d.len1));
          },
        )
    | inr q ↦
        let (p2, e, get) =
          assign-some h.p2 (h.j - length h.p1) i (ground (arith, d.count, d.len1, d.len2)) in
        (
          record h { p2 = p2; j = h.j + 1 },
          rw (p, q, e) refl,
          record {
            len1 = d.len1;
            len2 = length_of_get h.p2 p2 (h.j - length h.p1) i e ∙ d.len2;
            count = ground (arith, d.count);
            first = λ t ht hk. d.first t (ground (arith, d.len1)) hk;
            second = λ t ht. get t ∙ ground (arith, d.count, d.len1, d.second t);
          },
        )
  ]
]

pub dealt :
    (k l i : ℕ) (h : Halves)
    → l < 2 * k + 1
    → i ≤ 2 * k + 1
    → Dealt k l 0 h
    → (h' : Halves) × (each (deal l) (range i) h ≡ some h') × Dealt k l i h'
dealt k l zero h hl hi d = (h, refl, d)
dealt k l (suc i) h hl hi d =
    let (h1, e1, d1) = dealt k l i h hl (omega arith) d in
    let (h2, e2, d2) = step-Dealt k l i h1 hl (omega arith) d1 in
    (h2, each-append (deal l) (range i) (i ∷ []) h ∙ rw (e1, e2) refl, d2)

length-replicate : {A : Type 0} (n : ℕ) (a : A) → length (replicate n a) ≡ n
length-replicate zero a = refl
length-replicate (suc n) a = ap suc (length-replicate n a)

pub new-Dealt :
    (k l : ℕ) → Dealt k l 0 (record { p1 = replicate (k + 1) 0; p2 = replicate k 0; j = 0 })
new-Dealt k l = record {
  len1 = length-replicate (k + 1) 0;
  len2 = length-replicate k 0;
  count = ground arith;
  first = λ t h. absurd (omega arith);
  second = λ t h. absurd (omega arith);
}

pub last_is-some :
    (l : ℕ) (xs : List ℕ)
    → 0 < length xs
    → (ys : List ℕ) × (last_is l xs ≡ some ys)
      × (length ys ≡ length xs)
      × ((t : ℕ) → get_elem? ys t ≡ (if length xs - 1 == t then some l else get_elem? xs t))
unfolding last_is
last_is-some l [] h = absurd (omega arith)
last_is-some l (x ∷ xs) h =
    let (ys, e, get) = assign-some (x ∷ xs) (length xs) l (omega arith) in
    (ys, e, length_of_get (x ∷ xs) ys (length xs) l e, λ t. ground (arith, get t))
