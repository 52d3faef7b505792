-- ===== src/Tester/Group/Joined.antt =====
-- tester1/group.go: what ConnectAll makes of a group.
use linearizable_kv_store.Prelude.{
  ℕ, zero, suc, ◌<◌, ◌≤◌, ◌≡◌, ◌++◌, refl, ap, ◌∙◌, ◌&&◌, ◌||◌, true, some, List, [], ◌∷◌, String,
  arith,
}
use native.Mathlib.Decide.{dec_lt}
use linearizable_kv_store.Prelude.Panic.{each}
use linearizable_kv_store.Prelude.Assoc.{mem}
use linearizable_kv_store.Tester.Group.{ServerGrp, range, all, connect_one, connect_all}
use linearizable_kv_store.Tester.Group.View.{View, join, Below, Shows}
use linearizable_kv_store.Tester.Group.View.Traced.{connect-join}

abbrev joins : List ℕ → List ℕ → View → View
joins own [] v = v
joins own (x ∷ xs) v = joins own xs (join x own v)

joins-inside :
    (own xs : List ℕ) (v : View) (a b : ℕ)
    → mem a own ≡ true
    → mem b own ≡ true
    → ((mem a xs && (mem b xs || v.up b)) || (mem b xs && (mem a xs || v.up a)) || v.links a b)
      ≡ true
    → (joins own xs v).links a b ≡ true
unfolding join
joins-inside own [] v a b ha hb h = h
joins-inside own (x ∷ xs) v a b ha hb h =
    joins-inside own xs (join x own v) a b ha hb (ground arith)

joins-up : (own xs : List ℕ) (v : View) (a : ℕ) → (joins own xs v).up a ≡ (mem a xs || v.up a)
unfolding join
joins-up own [] v a = refl
joins-up own (x ∷ xs) v a = joins-up own xs (join x own v) a ∙ ground arith

mem-append : (x : ℕ) (xs ys : List ℕ) → mem x (xs ++ ys) ≡ (mem x xs || mem x ys)
mem-append x [] ys = refl
mem-append x (y ∷ xs) ys = ground (arith, mem-append x xs ys)

mem-range : (n i : ℕ) → i < n → mem i (range n) ≡ true
mem-range zero i h = absurd (omega arith)
mem-range (suc n) i h =
    mem-append i (range n) (n ∷ [])
    ∙ elim (dec_lt i n) [ yes below ↦ ground (arith, mem-range n i below) | no last ↦ ground arith ]

Below-append : (n : ℕ) (xs : List ℕ) (y : ℕ) → Below n xs → y < n → Below n (xs ++ y ∷ [])
Below-append n [] y b h = (h, tt)
Below-append n (x ∷ xs) y b h = (b.0, Below-append n xs y b.1 h)

Below-range : (n m : ℕ) → m ≤ n → Below n (range m)
Below-range n zero h = tt
Below-range n (suc m) h = Below-append n (range m) m (Below-range n m (omega arith)) (omega arith)

module _ (n : ℕ) (e : ℕ → ℕ → String) where
  each-joins :
      (xs : List ℕ) (sg : ServerGrp) (v : View)
      → Below n xs
      → Shows n e sg v
      → (sg' : ServerGrp) × (each connect_one xs sg ≡ some sg')
        × Shows n e sg' (joins (range n) xs v)
  unfolding connect_one all
  each-joins [] sg v hx h = (sg, refl, h)
  each-joins (x ∷ xs) sg v hx h =
      let (sg1, e1, h1) =
        connect-join n e sg v x (range n) hx.0 (Below-range n n (omega arith)) h in
      let (sg2, e2, h2) = each-joins xs sg1 (join x (range n) v) hx.1 h1 in
      (sg2, rw (h.named.size, e1) e2, h2)

  -- ConnectAll on a group whose ends have different names does not panic, and afterwards every server is
  -- connected and the end from every server to every server of the group is enabled, whatever was before.
  pub connect_all-Shows :
      (sg : ServerGrp) (v : View)
      → Shows n e sg v
      → (sg' : ServerGrp) × (connect_all sg ≡ some sg')
        × Shows n e sg' (record { up = λ i. true; links = λ i j. true })
  unfolding connect_all all
  connect_all-Shows sg v h =
      let (sg', p, s) = each-joins (range n) sg v (Below-range n n (omega arith)) h in
      (
        sg',
        rw h.named.size p,
        record {
          named = s.named;
          ups = λ i hi.
              s.ups i hi ∙ ap some (joins-up (range n) (range n) v i ∙ rw (mem-range n i hi) refl);
          shown = λ a b ha hb.
              s.shown a b ha hb
              ∙ joins-inside (range n) (range n) v a b (mem-range n a ha) (mem-range n b hb)
                  (rw (mem-range n a ha, mem-range n b hb) refl);
        },
      )
