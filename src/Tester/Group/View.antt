-- ===== src/Tester/Group/View.antt =====
-- tester1/group.go: a group as a test sees it, which is who is connected and whose end to whom is
-- enabled, and what connect and disconnect are on it.
pub mod Loops
pub mod Rounds
pub mod Traced
use linearizable_kv_store.Prelude.{
  ℕ, ◌<◌, ◌≡◌, refl, sym, ap, ◌∙◌, ◌&&◌, ◌||◌, ◌==◌, Bool-cases, Bool, true, false, Option, none,
  some, List, [], ◌∷◌, String, length, get_elem?, get_elem?_lt, ◌⊎◌, if◌then◌else◌, arith, inl, inr,
}
use mathlib.Core.Option.{some-injective, none-ne-some}
use linearizable_kv_store.Prelude.Panic.{◌>>=◌, each, assign, assign-some}
use linearizable_kv_store.Prelude.Dict.{insert_self, insert_ne}
use linearizable_kv_store.Prelude.Family.{update, put_at}
use linearizable_kv_store.Prelude.Assoc.{mem}
use linearizable_kv_store.Labrpc.{Network, or_false, enable}
use linearizable_kv_store.Tester.Group.{
  Server, ServerGrp, names, end_name, enable_at, enable_out, connect_out, disconnect_out, enable_in,
  disable_in, connect, disconnect,
}

pub record View : Type 0 where
  pub up : ℕ → Bool
  pub links : ℕ → ℕ → Bool

-- Server `i` and those of `to` that are up reach each other.
unfoldable pub join : ℕ → List ℕ → View → View
join i to v =
    let up = update v.up i true in
    record {
      up = up;
      links = λ a b.
          if (a == i && mem b to && up b) || (b == i && mem a to && up a)
          then true
          else v.links a b;
    }

-- Server `i` and those of `from` do not reach each other.
unfoldable pub leave : ℕ → List ℕ → View → View
leave i from v = record {
  up = update v.up i false;
  links = λ a b. if (a == i && mem b from) || (b == i && mem a from) then false else v.links a b;
}

-- They are numbers of servers of the group.
abbrev pub Below : ℕ → List ℕ → Type 0
Below n [] = Unit
Below n (x ∷ xs) = (x < n) × Below n xs

-- `e i j` is the name of the end from server `i` to server `j`.
pub record Named (n : ℕ) (e : ℕ → ℕ → String) (srvs : List Server) : Type 0 where
  pub size : length srvs ≡ n
  pub servers :
      (i : ℕ)
      → i < n
      → (s : Server) × (l : List String) × (get_elem? srvs i ≡ some s)
        × (s.end_names ≡ some l)
        × ((j : ℕ) → j < n → get_elem? l j ≡ some (e i j))
  pub distinct : (i j a b : ℕ) → i < n → j < n → a < n → b < n → e i j ≡ e a b → (i ≡ a) × (j ≡ b)

module _ (n : ℕ) (e : ℕ → ℕ → String) where
  abbrev pub Links : Network → (ℕ → ℕ → Bool) → Type 0
  Links net links = (a b : ℕ) → a < n → b < n → or_false (net.enabled (e a b)) ≡ links a b

  abbrev pub Ups : List Bool → (ℕ → Bool) → Type 0
  Ups connected up = (i : ℕ) → i < n → get_elem? connected i ≡ some (up i)

  pub record Shows (sg : ServerGrp) (v : View) : Type 0 where
    pub named : Named n e sg.srvs
    pub ups : Ups sg.connected v.up
    pub shown : Links sg.net v.links
