-- ===== src/Tester/Clnt/Allowed.antt =====
-- tester1/clnts.go: the ends of a clerk are enabled as its servers are allowed.
use text.Mathlib.Text.{◌==◌ as str_eq}
use text.Mathlib.TextEquality.{eq_iff}
use linearizable_kv_store.Prelude.{
  ◌≡◌, ◌≢◌, refl, sym, ap, ◌∙◌, subst, Bool, true, false, ◌||◌, Bool-cases, Option, none, some,
  List, [], ◌∷◌, ◌++◌, String, inl, inr, if◌then◌else◌, arith,
}
use mathlib.Core.Option.{some-injective, none-ne-some}
use linearizable_kv_store.Prelude.Dict.{insert_self, insert_ne}
use linearizable_kv_store.Labrpc.{Network, or_false, enable}
use linearizable_kv_store.Tester.Clnt.{
  Clnt, allowed, find, each_end, connect_all, connect_to, disconnect_all,
}

abbrev pub All : (String → String → Type 0) → List (String × String) → Type 0
All P [] = Unit
All P ((s, name) ∷ ends) = P s name × All P ends

abbrev pub Distinct : List (String × String) → Type 0
Distinct [] = Unit
Distinct ((s, name) ∷ ends) = All (λ _ other. name ≢ other) ends × Distinct ends

-- The ends have different names, and each is on the network and connected to its server.
pub record Wired (clnt : Clnt) (net : Network) : Type 0 where
  pub names : Distinct clnt.ends
  pub wires :
      All (λ s name. (net.ends name ≢ none) × (net.connections name ≡ some (some s))) clnt.ends

-- Each end is enabled exactly if its server is allowed.
unfoldable pub Current : Clnt → Network → Type 0
unfolding allowed
Current clnt net = All (λ s name. or_false (net.enabled name) ≡ allowed clnt.srvs s) clnt.ends

pub All-map :
    (P Q : String → String → Type 0) (ends : List (String × String))
    → ((s name : String) → P s name → Q s name)
    → All P ends
    → All Q ends
All-map P Q [] f h = tt
All-map P Q ((s, name) ∷ ends) f h = (f s name h.0, All-map P Q ends f h.1)

pub All-both :
    (P Q R : String → String → Type 0) (ends : List (String × String))
    → ((s name : String) → P s name → Q s name → R s name)
    → All P ends
    → All Q ends
    → All R ends
All-both P Q R [] f p q = tt
All-both P Q R ((s, name) ∷ ends) f p q = (f s name p.0 q.0, All-both P Q R ends f p.1 q.1)

pub All-find :
    (P : String → String → Type 0) (server name : String) (ends : List (String × String))
    → find server ends ≡ some name
    → All P ends
    → P server name
All-find P server name [] h a = absurd (none-ne-some _ h)
All-find P server name ((s, n) ∷ ends) h a = elim (Bool-cases (str_eq s server)) [
  | inl p ↦
      subst (λ x. P x name) ((eq_iff s server).0 p)
        (subst (λ x. P s x) (some-injective n name (rw p at h)) a.0)
  | inr p ↦ All-find P server name ends (rw p at h) a.1
]

pub All-snoc :
    (P : String → String → Type 0) (ends : List (String × String)) (s name : String)
    → All P ends
    → P s name
    → All P (ends ++ (s, name) ∷ [])
All-snoc P [] s name a p = (p, tt)
All-snoc P ((t, n) ∷ ends) s name a p = (a.0, All-snoc P ends s name a.1 p)

pub Distinct-snoc :
    (ends : List (String × String)) (s name : String)
    → Distinct ends
    → All (λ _ other. other ≢ name) ends
    → Distinct (ends ++ (s, name) ∷ [])
Distinct-snoc [] s name d a = (tt, tt)
Distinct-snoc ((t, n) ∷ ends) s name d a =
    (All-snoc (λ _ other. n ≢ other) ends s name d.0 a.0, Distinct-snoc ends s name d.1 a.1)

-- A loop that enables or disables the ends of some servers.
abbrev switch : (String → Bool) → Bool → String → String → Network → Network
switch test b s name net = if test s then enable name b net else net

switch_other :
    (test : String → Bool) (b : Bool) (s name x : String) (net : Network)
    → x ≢ name
    → (switch test b s name net).enabled x ≡ net.enabled x
unfolding enable
switch_other test b s name x net ne = elim (Bool-cases (test s)) [
  | inl p ↦ rw p (insert_ne name x b net.enabled (λ e. ne (sym e)))
  | inr p ↦ rw p refl
]

switch_self :
    (test : String → Bool) (b : Bool) (s name : String) (net : Network)
    → or_false ((switch test b s name net).enabled name)
      ≡ (if test s then b else or_false (net.enabled name))
unfolding enable
switch_self test b s name net = elim (Bool-cases (test s)) [
  | inl p ↦ rw p (ap or_false (insert_self name b net.enabled))
  | inr p ↦ rw p refl
]

each_other :
    (test : String → Bool) (b : Bool) (ends : List (String × String)) (x : String) (net : Network)
    → All (λ _ other. x ≢ other) ends
    → (each_end (switch test b) ends net).enabled x ≡ net.enabled x
each_other test b [] x net a = refl
each_other test b ((s, name) ∷ ends) x net a =
    each_other test b ends x (switch test b s name net) a.1 ∙ switch_other test b s name x net a.0

-- After such a loop.
abbrev Switched : (String → Bool) → Bool → Network → Network → List (String × String) → Type 0
Switched test b net net' =
    All
      (λ s name. or_false (net'.enabled name) ≡ (if test s then b else or_false (net.enabled name)))

each-switch :
    (test : String → Bool) (b : Bool) (ends : List (String × String)) (net : Network)
    → Distinct ends
    → Switched test b net (each_end (switch test b) ends net) ends
each-switch test b [] net d = tt
each-switch test b ((s, name) ∷ ends) net d = (
  ap or_false (each_other test b ends name (switch test b s name net) d.0)
      ∙ switch_self test b s name net,
  All-both (λ _ other. name ≢ other)
      (λ t n.
        or_false (after.enabled n)
        ≡ (if test t then b else or_false ((switch test b s name net).enabled n)))
      (λ t n. or_false (after.enabled n) ≡ (if test t then b else or_false (net.enabled n))) ends
      (λ t n ne e.
        e
        ∙ ap (λ o. if test t then b else or_false o)
            (switch_other test b s name n net (λ q. ne (sym q))))
      d.0 (each-switch test b ends (switch test b s name net) d.1),
)
  where
    after : Network
    after = each_end (switch test b) ends (switch test b s name net)

-- It leaves the ends and their connections.
each_kept :
    (test : String → Bool) (b : Bool) (ends : List (String × String)) (net : Network)
    → ((each_end (switch test b) ends net).ends ≡ net.ends)
      × ((each_end (switch test b) ends net).connections ≡ net.connections)
unfolding enable
each_kept test b [] net = (refl, refl)
each_kept test b ((s, name) ∷ ends) net =
    let (p, q) = each_kept test b ends (switch test b s name net) in
    let (p', q') = one (test s) in (p ∙ p', q ∙ q')
  where
    one :
        (on : Bool)
        → ((if on then enable name b net else net).ends ≡ net.ends)
          × ((if on then enable name b net else net).connections ≡ net.connections)
    one true = (refl, refl)
    one false = (refl, refl)

each-Wired :
    (test : String → Bool) (b : Bool) (srvs : Option (List String)) (clnt : Clnt) (net : Network)
    → Wired clnt net
    → Wired (record clnt { srvs = srvs }) (each_end (switch test b) clnt.ends net)
each-Wired test b srvs clnt net w = record {
  names = w.names;
  wires =
      let (p, q) = each_kept test b clnt.ends net in
      All-map (λ s name. (net.ends name ≢ none) × (net.connections name ≡ some (some s)))
        (λ s name.
          ((each_end (switch test b) clnt.ends net).ends name ≢ none)
          × ((each_end (switch test b) clnt.ends net).connections name ≡ some (some s)))
        clnt.ends (λ s name h. (λ z. h.0 (ap (λ f. f name) (sym p) ∙ z), ap (λ f. f name) q ∙ h.1))
        w.wires;
}

abbrev pub After : (Clnt → Network → Type 0) → (Clnt × Network) → Type 0
After P (clnt, net) = P clnt net

-- ConnectAll of a clerk whose ends have different names enables every one of them, and every server is
-- allowed from then on.
pub connect_all-Current :
    (clnt : Clnt) (net : Network)
    → Wired clnt net
    → After Wired (connect_all clnt net) × After Current (connect_all clnt net)
unfolding connect_all allowed Current
connect_all-Current clnt net w = (
  each-Wired (λ s. true) true none clnt net w,
  each-switch (λ s. true) true clnt.ends net w.names,
)

-- DisconnectAll of a clerk whose ends have different names disables every one of them, and no server is
-- allowed from then on.
pub disconnect_all-Current :
    (clnt : Clnt) (net : Network)
    → Wired clnt net
    → After Wired (disconnect_all clnt net) × After Current (disconnect_all clnt net)
unfolding disconnect_all allowed Current
disconnect_all-Current clnt net w = (
  each-Wired (λ s. true) false (some []) clnt net w,
  each-switch (λ s. true) false clnt.ends net w.names,
)

-- After ConnectTo, the end to a server is enabled if the server is allowed now, or if the end was enabled
-- before.
pub connect_to-Wired :
    (srvs : List String) (clnt : Clnt) (net : Network)
    → Wired clnt net
    → After Wired (connect_to srvs clnt net)
      × After
          (λ c n.
            All
              (λ s name.
                or_false (n.enabled name) ≡ (allowed c.srvs s || or_false (net.enabled name)))
              c.ends)
          (connect_to srvs clnt net)
unfolding connect_to allowed
connect_to-Wired srvs clnt net w = (
  each-Wired (allowed (some srvs)) true (some srvs) clnt net w,
  All-map
      (λ s name.
        or_false ((connect_to srvs clnt net).1.enabled name)
        ≡ (if allowed (some srvs) s then true else or_false (net.enabled name)))
      (λ s name.
        or_false ((connect_to srvs clnt net).1.enabled name)
        ≡ (allowed (some srvs) s || or_false (net.enabled name)))
      clnt.ends (λ s name h. h ∙ ground arith)
      (each-switch (allowed (some srvs)) true clnt.ends net w.names),
)
