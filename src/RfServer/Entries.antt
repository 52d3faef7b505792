-- ===== src/RfServer/Entries.antt =====
-- raft1/server.go: the entries of the log that a snapshot holds.
use linearizable_kv_store.Prelude.{
  ℕ, zero, suc, ◌+◌, ◌<◌, ◌≤◌, ◌≡◌, refl, ap, ◌∙◌, true, false, Option, none, some, List, [], ◌∷◌,
  ◌++◌, length, get_elem?, ◌⊎◌, ltb, leb, if◌then◌else◌, arith, inl, inr, ==_iff,
  get_elem?-append_left, get_elem?-append_right, length-append,
}
use native.Mathlib.Decide.{dec_lt}
use linearizable_kv_store.RfServer.{LogMap, entry_of, first_entries, set_entry}

get_elem?-none : {A : Type 0} (xs : List A) (i : ℕ) → length xs ≤ i → get_elem? xs i ≡ none
get_elem?-none [] i h = refl
get_elem?-none (x ∷ xs) zero h = absurd (omega arith)
get_elem?-none (x ∷ xs) (suc i) h = get_elem?-none xs i (omega arith)

module _ {C : Type 0} where
  length-first_entries : (n : ℕ) (l : LogMap C) → length (first_entries n l) ≡ n
  unfolding first_entries
  length-first_entries zero l = refl
  length-first_entries (suc n) l =
      length-append (first_entries n l) (entry_of (l n) ∷ [])
      ∙ omega (arith, length-first_entries n l)

  get_elem?-first_entries :
      (n : ℕ) (l : LogMap C) (j : ℕ)
      → j < n
      → get_elem? (first_entries n l) j ≡ some (entry_of (l j))
  unfolding first_entries
  get_elem?-first_entries zero l j h = absurd (omega arith)
  get_elem?-first_entries (suc n) l j h = elim (dec_lt j n) [
    | yes before ↦
        get_elem?-append_left j (first_entries n l) (entry_of (l n) ∷ [])
          (rw (length-first_entries n l) before)
        ∙ get_elem?-first_entries n l j before
    | no other ↦
        let last : j ≡ length (first_entries n l) + 0 = omega (arith, length-first_entries n l) in
        ap (get_elem? (first_entries n l ++ entry_of (l n) ∷ [])) last
        ∙ get_elem?-append_right 0 (first_entries n l) (entry_of (l n) ∷ [])
        ∙ ap (λ k. some (entry_of (l k))) (omega arith)
  ]

  get_elem?-first_entries-none :
      (n : ℕ) (l : LogMap C) (j : ℕ) → n ≤ j → get_elem? (first_entries n l) j ≡ none
  get_elem?-first_entries-none n l j h =
      get_elem?-none (first_entries n l) j (rw (length-first_entries n l) h)

pub not_empty : {n : ℕ} → 0 < n → ltb 0 n ≡ true
not_empty h = ground arith

leb-true : (j n : ℕ) → j ≤ n → leb j n ≡ true
leb-true j n h = ground arith

pub leb-false : (j n : ℕ) → n < j → leb j n ≡ false
leb-false j n h = ground arith

pub ltb-false : (j n : ℕ) → n ≤ j → ltb j n ≡ false
ltb-false j n h = ground arith

leb_eq : (j n : ℕ) → (j < n + 1) ⊎ (n + 1 ≤ j)
leb_eq j n = elim (dec_lt j (n + 1)) [ yes h ↦ inl h | no h ↦ inr (omega arith) ]

pub set_entry_self :
    {C : Type 0} (i : ℕ) (c : Option C) (l : LogMap C) → entry_of (set_entry i c l i) ≡ c
set_entry_self i c l = rw ((==_iff i i).1 refl) refl

pub first_entries-read :
    {C : Type 0} (n : ℕ) (l : LogMap C) (j : ℕ)
    → get_elem? (first_entries (n + 1) l) j ≡ (if leb j n then some (entry_of (l j)) else none)
first_entries-read n l j = elim (leb_eq j n) [
  | inl h ↦ get_elem?-first_entries (n + 1) l j h ∙ rw (leb-true j n (omega arith)) refl
  | inr h ↦ get_elem?-first_entries-none (n + 1) l j h ∙ rw (leb-false j n (omega arith)) refl
]
