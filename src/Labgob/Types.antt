-- ===== src/Labgob/Types.antt =====
-- labgob/labgob.go: what a call of checkType leaves, and the types that are still to be checked.
use linearizable_kv_store.Prelude.{
  ℕ, zero, suc, ◌+◌, ◌≤◌, ◌<◌, ◌≡◌, refl, ◌⊎◌, inl, inr, true, false, ◌==◌, ==_iff, Bool-cases,
  List, [], ◌∷◌, if◌then◌else◌, arith,
}
use linearizable_kv_store.Prelude.Assoc.{mem, Distinct}
use linearizable_kv_store.Labgob.{
  StructField, Kind, struct, container, map, other, Labgob, complain,
}

abbrev pub types_of : List StructField → List ℕ
types_of [] = []
types_of (f ∷ fs) = f.typ ∷ types_of fs

-- The types that a type is made of.
abbrev pub parts : Kind → List ℕ
parts (struct fs) = types_of fs
parts (container e) = e ∷ []
parts (map e k) = e ∷ k ∷ []
parts other = []

abbrev pub lower : StructField → ℕ
lower f = if f.upper then 0 else 1

abbrev pub lowers : List StructField → ℕ
lowers [] = 0
lowers (f ∷ fs) = lower f + lowers fs

-- The fields of a type that have lower-case names.
abbrev pub weight : Kind → ℕ
weight (struct fs) = lowers fs
weight _ = 0

abbrev pub Below : ℕ → List ℕ → Type 0
Below n [] = Unit
Below n (x ∷ xs) = (x < n) × Below n xs

abbrev pub AllIn : List ℕ → List ℕ → Type 0
AllIn checked [] = Unit
AllIn checked (x ∷ xs) = (mem x checked ≡ true) × AllIn checked xs

-- How many of the first `n` types have not been checked.
pub rooms : ℕ → List ℕ → ℕ
rooms zero checked = 0
rooms (suc n) checked = rooms n checked + (if mem n checked then 0 else 1)

pub rooms_le : (n : ℕ) (checked : List ℕ) → rooms n checked ≤ n
unfolding rooms
rooms_le zero checked = omega arith
rooms_le (suc n) checked = ground (arith, rooms_le n checked)

pub rooms_mono :
    (n : ℕ) (a b : List ℕ) → ((u : ℕ) → mem u a ≡ true → mem u b ≡ true) → rooms n b ≤ rooms n a
unfolding rooms
rooms_mono zero a b h = omega arith
rooms_mono (suc n) a b h = elim (Bool-cases (mem n a)) [
  | inl p ↦ rw (p, h n p) (omega (arith, rooms_mono n a b h))
  | inr p ↦ rw p (ground (arith, rooms_mono n a b h))
]

rooms_above : (n t : ℕ) (a : List ℕ) → n ≤ t → rooms n (t ∷ a) ≡ rooms n a
unfolding rooms
rooms_above zero t a h = refl
rooms_above (suc n) t a h = ground (arith, rooms_above n t a)

pub rooms_mark :
    (n t : ℕ) (a : List ℕ) → t < n → mem t a ≡ false → rooms n a ≡ suc (rooms n (t ∷ a))
unfolding rooms
rooms_mark zero t a h m = absurd (omega arith)
rooms_mark (suc n) t a h m = elim (Bool-cases (n == t)) [
  | inl p ↦ rw ((==_iff n t).0 p, (==_iff t t).1 refl, m) (omega (arith, rooms_above t t a))
  | inr p ↦ rw p (ground (arith, rooms_mark n t a))
]

AllIn-mono :
    (a b xs : List ℕ) → ((u : ℕ) → mem u a ≡ true → mem u b ≡ true) → AllIn a xs → AllIn b xs
AllIn-mono a b [] f h = tt
AllIn-mono a b (x ∷ xs) f h = (f x h.0, AllIn-mono a b xs f h.1)

module _ (kinds : ℕ → Kind) where
  -- The lower-case fields of these types.
  abbrev pub total : List ℕ → ℕ
  total [] = 0
  total (t ∷ ts) = weight (kinds t) + total ts

  -- From one state to a later one, with `pending` fields found that belong to a type that is checked already.
  pub record Passed (pending : ℕ) (lg lg' : Labgob) : Type 0 where
    pub grows : (u : ℕ) → mem u lg.checked ≡ true → mem u lg'.checked ≡ true
    pub once : Distinct lg.checked → Distinct lg'.checked
    pub counted : lg'.error_count + total lg.checked ≡ lg.error_count + pending + total lg'.checked
    pub closed :
        (u : ℕ)
        → mem u lg'.checked ≡ true
        → (mem u lg.checked ≡ true) ⊎ AllIn lg'.checked (parts (kinds u))

  pub Passed-refl : (lg : Labgob) → Passed 0 lg lg
  Passed-refl lg = record {
    grows = λ u h. h;
    once = λ d. d;
    counted = omega arith;
    closed = λ u h. inl h;
  }

  pub Passed-trans : (p q : ℕ) (a b c : Labgob) → Passed p a b → Passed q b c → Passed (p + q) a c
  Passed-trans p q a b c f g = record {
    grows = λ u h. g.grows u (f.grows u h);
    once = λ d. g.once (f.once d);
    counted = omega (arith, f.counted, g.counted);
    closed = λ u h. later u (g.closed u h);
  }
    where
      sooner :
          (u : ℕ)
          → ((mem u a.checked ≡ true) ⊎ AllIn b.checked (parts (kinds u)))
          → (mem u a.checked ≡ true) ⊎ AllIn c.checked (parts (kinds u))
      sooner u (inl h) = inl h
      sooner u (inr h) = inr (AllIn-mono b.checked c.checked (parts (kinds u)) g.grows h)

      later :
          (u : ℕ)
          → ((mem u b.checked ≡ true) ⊎ AllIn c.checked (parts (kinds u)))
          → (mem u a.checked ≡ true) ⊎ AllIn c.checked (parts (kinds u))
      later u (inl h) = sooner u (f.closed u h)
      later u (inr h) = inr h

  pub complain-Passed : (f : StructField) (lg : Labgob) → Passed (lower f) lg (complain f lg)
  unfolding complain
  complain-Passed f lg = elim (Bool-cases f.upper) [
    | inl p ↦ rw p (Passed-refl lg)
    | inr p ↦
        rw p
          (record { grows = λ u h. h; once = λ d. d; counted = omega arith; closed = λ u h. inl h })
  ]
