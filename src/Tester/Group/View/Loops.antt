-- ===== src/Tester/Group/View/Loops.antt =====
-- tester1/group.go: loops that enable or disable some of the ends.
use linearizable_kv_store.Prelude.{
  ℕ, ◌<◌, ◌≡◌, refl, ◌∙◌, ◌&&◌, ◌||◌, ◌==◌, Bool-cases, Bool, true, false, Option, some, List, [],
  ◌∷◌, String, get_elem?, get_elem?_lt, ◌⊎◌, if◌then◌else◌, arith, inl, inr,
}
use linearizable_kv_store.Prelude.Panic.{◌>>=◌, each, assign, assign-some}
use linearizable_kv_store.Prelude.Family.{update}
use linearizable_kv_store.Prelude.Assoc.{mem}
use linearizable_kv_store.Labrpc.{Network}
use linearizable_kv_store.Tester.Group.View.{Below, Links, Ups}

abbrev pub any_row : (ℕ → ℕ → ℕ → Bool) → List ℕ → ℕ → ℕ → Bool
any_row row [] a b = false
any_row row (j ∷ js) a b = row j a b || any_row row js a b

or_again :
    (p q on : Bool) (x : Bool)
    → (if q then on else if p then on else x) ≡ (if p || q then on else x)
or_again true true on x = refl
or_again true false on x = refl
or_again false true on x = refl
or_again false false on x = refl

-- The pairs of one round of each of the four loops.
abbrev pub out_row : (ℕ → Bool) → ℕ → ℕ → ℕ → ℕ → Bool
out_row up i j a b = (a == i && b == j) && up j

abbrev pub in_row : (ℕ → Bool) → ℕ → ℕ → ℕ → ℕ → Bool
in_row up i j a b = (a == j && b == i) && up j

pub and_on : (x : Bool) → x ≡ (x && true)
and_on true = refl
and_on false = refl

pub and_off : (x : Bool) → (x && false) ≡ false
and_off true = refl
and_off false = refl

-- The pairs of all rounds.
pub any_out :
    (up : ℕ → Bool) (i a b : ℕ) (to : List ℕ)
    → any_row (out_row up i) to a b ≡ (a == i && mem b to && up b)
any_out up i a b [] = ground arith
any_out up i a b (j ∷ to) = ground (arith, any_out up i a b to)

pub any_in :
    (up : ℕ → Bool) (i a b : ℕ) (to : List ℕ)
    → any_row (in_row up i) to a b ≡ (b == i && mem a to && up a)
any_in up i a b [] = ground arith
any_in up i a b (j ∷ to) = ground (arith, any_in up i a b to)

pub any_from :
    (i a b : ℕ) (from : List ℕ)
    → any_row (λ j a b. a == i && b == j) from a b ≡ (a == i && mem b from)
any_from i a b [] = ground arith
any_from i a b (j ∷ from) = ground (arith, any_from i a b from)

pub any_to :
    (i a b : ℕ) (from : List ℕ)
    → any_row (λ j a b. a == j && b == i) from a b ≡ (b == i && mem a from)
any_to i a b [] = ground arith
any_to i a b (j ∷ from) = ground (arith, any_to i a b from)

module _ (n : ℕ) (e : ℕ → ℕ → String) where
  pub assign-Ups :
      (connected : List Bool) (up : ℕ → Bool) (i : ℕ) (on : Bool)
      → i < n
      → Ups n e connected up
      → (c : List Bool) × (assign connected i on ≡ some c) × Ups n e c (update up i on)
  assign-Ups connected up i on hi h =
      let (c, p, get) = assign-some connected i on (get_elem?_lt connected i (h i hi)) in
      (c, p, λ k hk. get k ∙ there k hk (Bool-cases (i == k)))
    where
      there :
          (k : ℕ)
          → k < n
          → ((i == k) ≡ true) ⊎ ((i == k) ≡ false)
          → (if i == k then some on else get_elem? connected k) ≡ some (update up i on k)
      there k hk (inl p) = rw p refl
      there k hk (inr p) = rw p (h k hk)

  -- A step of a loop that sets the links of some pairs.
  abbrev pub Sets : (ℕ → ℕ → Bool) → Bool → (Network → Option Network) → Type 0
  Sets pairs on f =
      (net : Network) (links : ℕ → ℕ → Bool)
      → Links n e net links
      → (net' : Network) × (f net ≡ some net')
        × Links n e net' (λ a b. if pairs a b then on else links a b)

  pub each-Links :
      (f : ℕ → Network → Option Network) (row : ℕ → ℕ → ℕ → Bool) (on : Bool) (js : List ℕ)
      → ((j : ℕ) → j < n → Sets (row j) on (f j))
      → Below n js
      → Sets (any_row row js) on (each f js)
  each-Links f row on [] h below net links l = (net, refl, l)
  each-Links f row on (j ∷ js) h below net links l =
      let (net1, e1, l1) = h j below.0 net links l in
      let (net2, e2, l2) =
        each-Links f row on js h below.1 net1 (λ a b. if row j a b then on else links a b) l1 in
      (
        net2,
        rw e1 e2,
        λ a b ha hb. l2 a b ha hb ∙ or_again (row j a b) (any_row row js a b) on (links a b),
      )

  pub no_pairs :
      (pairs : ℕ → ℕ → Bool) (on : Bool) → ((a b : ℕ) → pairs a b ≡ false) → Sets pairs on some
  no_pairs pairs on h net links l = (net, refl, λ a b ha hb. rw (h a b) (l a b ha hb))

  pub same_pairs :
      (p q : ℕ → ℕ → Bool) (on : Bool) (f : Network → Option Network)
      → ((a b : ℕ) → p a b ≡ q a b)
      → Sets p on f
      → Sets q on f
  same_pairs p q on f h sets net links l =
      let (net', e', l') = sets net links l in
      (net', e', λ a b ha hb. l' a b ha hb ∙ rw (h a b) refl)

  -- An end that is enabled if its server is up.
  pub guarded-Sets :
      (connected : List Bool) (up : ℕ → Bool) (pairs : ℕ → ℕ → Bool) (f : Network → Option Network)
      (j : ℕ)
      → Ups n e connected up
      → j < n
      → Sets pairs true f
      → Sets
          (λ a b. pairs a b && up j)
          true
          (λ net. get_elem? connected j >>= λ up. elim up [ true ↦ f net | false ↦ some net ])
  guarded-Sets connected up pairs f j ups hj sets net links l = elim (Bool-cases (up j)) [
    | inl p ↦
        rw (ups j hj, p)
          (same_pairs pairs (λ a b. pairs a b && true) true f (λ a b. and_on (pairs a b)) sets net
            links l)
    | inr p ↦
        rw (ups j hj, p)
          (no_pairs (λ a b. pairs a b && false) true (λ a b. and_off (pairs a b)) net links l)
  ]

  -- Two loops, one after the other.
  pub both-Sets :
      (p q : ℕ → ℕ → Bool) (on : Bool) (f g : Network → Option Network)
      → Sets p on f
      → Sets q on g
      → Sets (λ a b. p a b || q a b) on (λ net. f net >>= g)
  both-Sets p q on f g sf sg net links l =
      let (net1, e1, l1) = sf net links l in
      let (net2, e2, l2) = sg net1 (λ a b. if p a b then on else links a b) l1 in
      (net2, rw e1 e2, λ a b ha hb. l2 a b ha hb ∙ or_again (p a b) (q a b) on (links a b))
