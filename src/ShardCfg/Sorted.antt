-- ===== src/ShardCfg/Sorted.antt =====
-- shardkv1/shardcfg/shardcfg.go: sorting the gids forgets the order in which a map gives them.
use linearizable_kv_store.Prelude.{
  ℕ, ◌≤◌, ◌<◌, ◌≡◌, refl, sym, ◌∙◌, ap, List, [], ◌∷◌, ◌==◌, ==_iff, if◌then◌else◌, arith,
  Bool-cases, inl, inr, leb,
}
use native.Mathlib.Decide.{dec_lt}
use linearizable_kv_store.Prelude.Assoc.{mem, Distinct}
use linearizable_kv_store.ShardCfg.Rebalance.{count, sort, insert_sorted}

abbrev Above : ℕ → List ℕ → Type 0
Above z [] = Unit
Above z (y ∷ ys) = (z ≤ y) × Above z ys

abbrev IsSorted : List ℕ → Type 0
IsSorted [] = Unit
IsSorted (x ∷ xs) = Above x xs × IsSorted xs

Above-trans : (a b : ℕ) (ys : List ℕ) → a ≤ b → Above b ys → Above a ys
Above-trans a b [] h p = tt
Above-trans a b (y ∷ ys) h p = (omega arith, Above-trans a b ys h p.1)

insert_sorted-Above : (z x : ℕ) (ys : List ℕ) → z ≤ x → Above z ys → Above z (insert_sorted x ys)
unfolding insert_sorted
insert_sorted-Above z x [] h p = (h, tt)
insert_sorted-Above z x (y ∷ ys) h p = elim (Bool-cases (leb x y)) [
  | inl q ↦ rw q (h, p)
  | inr q ↦ rw q (p.0, insert_sorted-Above z x ys h p.1)
]

insert_sorted-IsSorted : (x : ℕ) (ys : List ℕ) → IsSorted ys → IsSorted (insert_sorted x ys)
unfolding insert_sorted
insert_sorted-IsSorted x [] s = (tt, tt)
insert_sorted-IsSorted x (y ∷ ys) s = elim (Bool-cases (leb x y)) [
  | inl q ↦ rw q ((ground arith, Above-trans x y ys (ground arith) s.0), s)
  | inr q ↦ rw q (insert_sorted-Above y x ys (ground arith) s.0, insert_sorted-IsSorted x ys s.1)
]

sort-IsSorted : (xs : List ℕ) → IsSorted (sort xs)
unfolding sort
sort-IsSorted [] = tt
sort-IsSorted (x ∷ xs) = insert_sorted-IsSorted x (sort xs) (sort-IsSorted xs)

count-insert_sorted : (k x : ℕ) (ys : List ℕ) → count k (insert_sorted x ys) ≡ count k (x ∷ ys)
unfolding insert_sorted
count-insert_sorted k x [] = refl
count-insert_sorted k x (y ∷ ys) = ground (arith, count-insert_sorted k x ys)

count-sort : (k : ℕ) (xs : List ℕ) → count k (sort xs) ≡ count k xs
unfolding sort
count-sort k [] = refl
count-sort k (x ∷ xs) = ground (arith, count-insert_sorted k x (sort xs), count-sort k xs)

count-Above : (x z : ℕ) (ys : List ℕ) → x < z → Above z ys → count x ys ≡ 0
count-Above x z [] h p = refl
count-Above x z (y ∷ ys) h p = ground (arith, count-Above x z ys h p.1)

count_self : (x : ℕ) (xs : List ℕ) → 0 < count x (x ∷ xs)
count_self x xs = rw ((==_iff x x).1 refl) (omega arith)

-- Two sorted lists with the same numbers, as often.
IsSorted-eq :
    (xs ys : List ℕ) → IsSorted xs → IsSorted ys → ((k : ℕ) → count k xs ≡ count k ys) → xs ≡ ys
IsSorted-eq [] [] s t h = refl
IsSorted-eq [] (y ∷ ys) s t h = absurd (omega (arith, h y, count_self y ys))
IsSorted-eq (x ∷ xs) [] s t h = absurd (omega (arith, h x, count_self x xs))
IsSorted-eq (x ∷ xs) (y ∷ ys) s t h =
    rw (same, IsSorted-eq xs ys s.1 t.1 (λ k. ground (arith, h k, same))) refl
  where
    same : x ≡ y
    same = elim (dec_lt x y) [
      | yes less ↦
          absurd
            (omega (arith, h x, count_self x xs, count-Above x y (y ∷ ys) less (omega arith, t.0)))
      | no not_less ↦ elim (dec_lt y x) [
        | yes more ↦
            absurd (
              omega (arith, h y, count_self y ys, count-Above y x (x ∷ xs) more (omega arith, s.0)))
        | no not_more ↦ omega arith
      ]
    ]

count-mem : (k : ℕ) (xs : List ℕ) → Distinct xs → count k xs ≡ (if mem k xs then 1 else 0)
count-mem k [] d = refl
count-mem k (x ∷ xs) d = elim (Bool-cases (k == x)) [
  | inl p ↦ rw ((==_iff k x).0 p) (ground (arith, count-mem x xs d.1, d.0))
  | inr p ↦ ground (arith, count-mem k xs d.1)
]

-- The sorted gids of two maps with the same keys.
pub sort-eq_of_mem :
    (xs ys : List ℕ)
    → Distinct xs
    → Distinct ys
    → ((k : ℕ) → mem k xs ≡ mem k ys)
    → sort xs ≡ sort ys
sort-eq_of_mem xs ys d e h =
    IsSorted-eq (sort xs) (sort ys) (sort-IsSorted xs) (sort-IsSorted ys) (λ k.
      count-sort k xs
      ∙ count-mem k xs d
      ∙ ap (λ b. if b then 1 else 0) (h k)
      ∙ sym (count-mem k ys e)
      ∙ sym (count-sort k ys))
