-- ===== src/Tester/Group/Fresh.antt =====
-- tester1/srv.go: the ends that a server of a group makes. Their random names are all different, since
-- a name that is taken is fatal.
use linearizable_kv_store.Prelude.{
  ℕ, zero, suc, ◌<◌, ◌≡◌, ◌≢◌, refl, sym, ap, ◌∙◌, subst, Option-cases, false, Option, none, some,
  List, [], ◌∷◌, ◌++◌, String, length, get_elem?, get_elem?_lt, get_elem?-append_left,
  get_elem?-append_right, length-append, ◌⊎◌, arith, inl, inr,
}
use mathlib.Core.Option.{some-injective, none-ne-some}
use native.Mathlib.Decide.{dec_lt}
use linearizable_kv_store.Prelude.Panic.{>>=-eq-some}
use linearizable_kv_store.Prelude.Dict.{insert, insert_self, insert_ne}
use linearizable_kv_store.Labrpc.{
  Network, ClientEnd, or_false, make_end, make_end_at, connect as labrpc_connect,
}
use linearizable_kv_store.Tester.Group.{make_ends, server_name}

-- The ends that a name is taken for stay, stay enabled or not, and stay connected as they were.
abbrev pub Kept : Network → Network → Type 0
Kept net net' =
    (y : String)
    → net.ends y ≢ none
    → (net'.ends y ≢ none)
      × (net'.enabled y ≡ net.enabled y)
      × (net'.connections y ≡ net.connections y)

-- An end that is new, not enabled, and connected to server `s`.
abbrev pub New : String → String → Network → Network → Type 0
New x s net net' =
    (net.ends x ≡ none)
    × (net'.ends x ≢ none)
    × (or_false (net'.enabled x) ≡ false)
    × (net'.connections x ≡ some (some s))

pub Kept-trans : (a b c : Network) → Kept a b → Kept b c → Kept a c
Kept-trans a b c f g y h =
    let (h1, e1, c1) = f y h in let (h2, e2, c2) = g y h1 in (h2, e2 ∙ e1, c2 ∙ c1)

pub New-later : (a b c : Network) (x s : String) → New x s a b → Kept b c → New x s a c
New-later a b c x s (p, q, r, t) g = let (h, e, k) = g x q in (p, h, ap or_false e ∙ r, k ∙ t)

pub New-sooner : (a b c : Network) (x s : String) → Kept a b → New x s b c → New x s a c
New-sooner a b c x s f (p, q, r, to) = (gone (Option-cases (a.ends x)), q, r, to)
  where
    gone : ((a.ends x ≡ none) ⊎ ((e : ClientEnd) × (a.ends x ≡ some e))) → a.ends x ≡ none
    gone (inl h) = h
    gone (inr (e, h)) = absurd ((f x (λ n. none-ne-some _ (sym n ∙ h))).0 p)

pub New-apart : (a b c : Network) (x y : String) {s u : String} → New x s a b → New y u b c → x ≢ y
New-apart a b c x y (_, q, _, _) (p, _, _, _) e = q (ap b.ends e ∙ p)

make_end_at-New :
    (x s : String) (o : Option ClientEnd) (net net' : Network) {e : ClientEnd}
    → net.ends x ≡ o
    → make_end_at o x net ≡ some (net', e)
    → New x s net (labrpc_connect x s net') × Kept net (labrpc_connect x s net')
unfolding labrpc_connect
make_end_at-New x s (some c) net net' {e} p h = absurd (none-ne-some _ h)
make_end_at-New x s none net net' {e} p h =
    subst (λ m. New x s net (labrpc_connect x s m) × Kept net (labrpc_connect x s m))
      (ap (λ r. r.0) (some-injective _ _ h))
      (
        (
          p,
          λ q. none-ne-some _ (sym q ∙ insert_self x _ net.ends),
          ap or_false (insert_self x false net.enabled),
          insert_self x (some s) (insert x none net.connections),
        ),
        λ y h.
            let ne = other y h in
            (
              λ q. h (sym (insert_ne x y _ net.ends ne) ∙ q),
              insert_ne x y false net.enabled ne,
              insert_ne x y (some s) (insert x none net.connections) ne
                  ∙ insert_ne x y none net.connections ne,
            ),
      )
  where
    other : (y : String) → net.ends y ≢ none → x ≢ y
    other y h e = h (ap net.ends (sym e) ∙ p)

-- `j` ends with these names are new and lead to the servers of the group.
pub record Ends (name : ℕ → String) (gid j : ℕ) (net net' : Network) : Type 0 where
  pub kept : Kept net net'
  pub new : (i : ℕ) → i < j → New (name i) (server_name gid i) net net'
  pub apart : (a b : ℕ) → a < j → b < j → name a ≡ name b → a ≡ b

-- A list has these members.
pub record Members {A : Type 0} (n : ℕ) (P : ℕ → A → Type 0) (l : List A) : Type 0 where
  pub size : length l ≡ n
  pub member : (i : ℕ) → i < n → (x : A) × (get_elem? l i ≡ some x) × P i x

pub one_more :
    {A : Type 0} {n : ℕ} {P : ℕ → A → Type 0} (l : List A) (x : A)
    → P n x
    → Members n P l
    → Members (suc n) P (l ++ x ∷ [])
one_more {A} {n} {P} l x px m = record {
  size = length-append l (x ∷ []) ∙ omega (arith, m.size);
  member = λ i hi. elim (dec_lt i n) [
    | yes below ↦
        let (y, e, py) = m.member i below in
        (y, get_elem?-append_left i l (x ∷ []) (get_elem?_lt l i e) ∙ e, py)
    | no last ↦ (
      x,
      ap (get_elem? (l ++ x ∷ [])) (omega (arith, m.size)) ∙ get_elem?-append_right 0 l (x ∷ []),
      subst (λ k. P k x) (omega arith) px,
    )
  ];
}

more-Ends :
    (name : ℕ → String) (gid j : ℕ) (a b c : Network)
    → Ends name gid j a b
    → New (name j) (server_name gid j) b c
    → Kept b c
    → Ends name gid (suc j) a c
more-Ends name gid j a b c f new kept = record {
  kept = Kept-trans a b c f.kept kept;
  new = λ i hi. elim (dec_lt i j) [
    | yes below ↦ New-later a b c (name i) (server_name gid i) (f.new i below) kept
    | no last ↦
        subst (λ k. New (name k) (server_name gid k) a c) (omega arith)
          (New-sooner a b c (name j) (server_name gid j) f.kept new)
  ];
  apart = λ x y hx hy e. elim (dec_lt x j) [
    | yes bx ↦ elim (dec_lt y j) [
      | yes by_ ↦ f.apart x y bx by_ e
      | no ly ↦
          absurd (New-apart a b c (name x) (name j) (f.new x bx) new (e ∙ ap name (omega arith)))
    ]
    | no lx ↦ elim (dec_lt y j) [
      | yes by_ ↦
          absurd
            (New-apart a b c (name y) (name j) (f.new y by_) new (sym e ∙ ap name (omega arith)))
      | no ly ↦ omega arith
    ]
  ];
}

pub make_ends-Ends :
    (name : ℕ → String) (gid j : ℕ) (net : Network) {l : List String} {net' : Network}
    → make_ends name gid j net ≡ some (l, net')
    → Members j (λ i x. x ≡ name i) l × Ends name gid j net net'
unfolding make_ends make_end
make_ends-Ends name gid zero net {l} {net'} h =
    subst (λ r. Members 0 (λ i x. x ≡ name i) r.0 × Ends name gid zero net r.1)
      (some-injective _ _ h)
      (
        record { size = refl; member = λ i hi. absurd (omega arith) },
        record {
          kept = λ y q. (q, refl, refl);
          new = λ i hi. absurd (omega arith);
          apart = λ a b ha. absurd (omega arith);
        },
      )
make_ends-Ends name gid (suc j) net {l} {net'} h =
    let ((l1, net1), e1, h1) = >>=-eq-some (make_ends name gid j net) _ h in
    let ((net2, c), e2, h2) = >>=-eq-some (make_end (name j) net1) _ h1 in
    let (new, kept) =
      make_end_at-New (name j) (server_name gid j) (net1.ends (name j)) net1 net2 refl e2 in
    let (m, f) = make_ends-Ends name gid j net e1 in
    subst (λ r. Members (suc j) (λ i x. x ≡ name i) r.0 × Ends name gid (suc j) net r.1)
      (some-injective _ _ h2)
      (
        one_more l1 (name j) refl m,
        more-Ends name gid j net net1 (labrpc_connect (name j) (server_name gid j) net2) f new kept,
      )
