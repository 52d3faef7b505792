-- ===== src/Tester/Group/View/Rounds.antt =====
-- tester1/group.go and srv.go: one round of each loop of connect and disconnect.
use linearizable_kv_store.Prelude.{
  ℕ, ◌<◌, ◌≡◌, refl, sym, ap, ◌∙◌, ◌&&◌, ◌==◌, Bool-cases, Bool, true, false, some, List, String,
  get_elem?, arith, inl, inr,
}
use mathlib.Core.Option.{some-injective}
use linearizable_kv_store.Prelude.Dict.{insert_self, insert_ne}
use linearizable_kv_store.Prelude.Family.{put_at}
use linearizable_kv_store.Labrpc.{Network, enable}
use linearizable_kv_store.Tester.Group.{
  Server, ServerGrp, names, end_name, enable_at, enable_out, disconnect_out, enable_in, disable_in,
}
use linearizable_kv_store.Tester.Group.View.{Below, Named, Links, Ups}
use linearizable_kv_store.Tester.Group.View.Loops.{
  any_row, Sets, each-Links, out_row, in_row, guarded-Sets,
}

module _ (n : ℕ) (e : ℕ → ℕ → String) where
  pub enable-Links :
      (srvs : List Server) (net : Network) (links : ℕ → ℕ → Bool) (i j : ℕ) (on : Bool)
      → Named n e srvs
      → i < n
      → j < n
      → Links n e net links
      → Links n e (enable (e i j) on net) (put_at i j on links)
  unfolding enable
  enable-Links srvs net links i j on named hi hj h a b ha hb =
      elim (Bool-cases (a == i && b == j)) [
        | inl p ↦ rw (p, left a b p, right a b p, insert_self (e i j) on net.enabled) refl
        | inr p ↦
            rw
              (
                p,
                insert_ne (e i j) (e a b) on net.enabled
                    (λ q. other a b p (named.distinct i j a b hi hj ha hb q)),
              )
              (h a b ha hb)
      ]
    where
      left : (a b : ℕ) → (a == i && b == j) ≡ true → a ≡ i
      left a b p = ground arith

      right : (a b : ℕ) → (a == i && b == j) ≡ true → b ≡ j
      right a b p = ground arith

      other : (a b : ℕ) → (a == i && b == j) ≡ false → ((i ≡ a) × (j ≡ b)) → ⊥
      other a b p q = ground (arith, q.0, q.1)

  pub set_some :
      (srvs : List Server) (i j : ℕ) (on : Bool)
      → Named n e srvs
      → i < n
      → j < n
      → Sets n e (λ a b. a == i && b == j) on (enable_at (some (e i j)) on)
  set_some srvs i j on named hi hj net links l =
      (_, refl, enable-Links srvs net links i j on named hi hj l)

  pub end_name-Named :
      (srvs : List Server) (i j : ℕ)
      → Named n e srvs
      → i < n
      → j < n
      → end_name srvs i j ≡ some (e i j)
  unfolding end_name names
  end_name-Named srvs i j named hi hj =
      let (s, l, es, el, at) = named.servers i hi in rw (es, el) (at j hj)

  pub own_names :
      (srvs : List Server) (s : Server) (i : ℕ)
      → Named n e srvs
      → get_elem? srvs i ≡ some s
      → i < n
      → (l : List String) × (s.end_names ≡ some l)
        × ((j : ℕ) → j < n → get_elem? l j ≡ some (e i j))
  own_names srvs s i named es hi =
      let (s', l, es', el, get) = named.servers i hi in
      (l, ap (λ x. x.end_names) (some-injective s s' (sym es ∙ es')) ∙ el, get)

  pub enable_out-Sets :
      (sg : ServerGrp) (connected : List Bool) (up : ℕ → Bool) (s : Server) (i j : ℕ)
      → Named n e sg.srvs
      → Ups n e connected up
      → get_elem? sg.srvs i ≡ some s
      → i < n
      → j < n
      → Sets n e (out_row up i j) true (enable_out connected s j)
  unfolding enable_out names
  enable_out-Sets sg connected up s i j named ups es hi hj =
      let (l, el, get) = own_names sg.srvs s i named es hi in
      guarded-Sets n e connected up (λ a b. a == i && b == j)
        (λ net. enable_at (get_elem? (names s) j) true net) j ups hj
        (rw (el, get j hj) (set_some sg.srvs i j true named hi hj))

  pub enable_in-Sets :
      (srvs : List Server) (connected : List Bool) (up : ℕ → Bool) (i j : ℕ)
      → Named n e srvs
      → Ups n e connected up
      → i < n
      → j < n
      → Sets n e (in_row up i j) true (enable_in connected srvs i j)
  unfolding enable_in
  enable_in-Sets srvs connected up i j named ups hi hj =
      guarded-Sets n e connected up (λ a b. a == j && b == i)
        (λ net. enable_at (end_name srvs j i) true net) j ups hj
        (rw (end_name-Named srvs j i named hj hi) (set_some srvs j i true named hj hi))

  pub disable_in-Sets :
      (srvs : List Server) (i j : ℕ)
      → Named n e srvs
      → i < n
      → j < n
      → Sets n e (λ a b. a == j && b == i) false (disable_in srvs i j)
  unfolding disable_in
  disable_in-Sets srvs i j named hi hj =
      let (s, l, es, el, at) = named.servers j hj in
      rw (es, el, at i hi) (set_some srvs j i false named hj hi)

  pub disconnect_out-Sets :
      (srvs : List Server) (s : Server) (i : ℕ) (from : List ℕ)
      → Named n e srvs
      → get_elem? srvs i ≡ some s
      → i < n
      → Below n from
      → Sets n e (any_row (λ j a b. a == i && b == j) from) false (disconnect_out s from)
  unfolding disconnect_out
  disconnect_out-Sets srvs s i from named es hi below =
      let (l, el, get) = own_names srvs s i named es hi in
      rw el (
        each-Links n e (λ j net. enable_at (get_elem? l j) false net) (λ j a b. a == i && b == j)
          false from (λ j hj. rw (get j hj) (set_some srvs i j false named hi hj)) below)
