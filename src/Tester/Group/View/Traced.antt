-- ===== src/Tester/Group/View/Traced.antt =====
-- tester1/group.go: connect and disconnect, traced on a view of the group.
use linearizable_kv_store.Prelude.{
  ℕ, ◌<◌, ◌≡◌, refl, ◌∙◌, ◌&&◌, ◌==◌, true, false, Option, none, some, List, String,
}
use mathlib.Core.Option.{none-ne-some}
use linearizable_kv_store.Prelude.Panic.{◌>>=◌, each}
use linearizable_kv_store.Prelude.Family.{update}
use linearizable_kv_store.Tester.Group.{
  ServerGrp, enable_out, connect_out, disconnect_out, enable_in, disable_in, connect, disconnect,
}
use linearizable_kv_store.Tester.Group.View.{View, join, leave, Below, Shows}
use linearizable_kv_store.Tester.Group.View.Loops.{
  any_row, assign-Ups, each-Links, out_row, in_row, any_out, any_in, any_from, any_to, both-Sets,
}
use linearizable_kv_store.Tester.Group.View.Rounds.{
  enable_out-Sets, enable_in-Sets, disable_in-Sets, disconnect_out-Sets,
}

-- A result that is packed up at the end.
then_pack :
    {A B C : Type 0} (m : Option A) (g : A → Option B) (pack : B → C) {y : B}
    → (m >>= g) ≡ some y
    → (m >>= λ x. g x >>= λ z. some (pack z)) ≡ some (pack y)
then_pack none g pack h = absurd (none-ne-some _ h)
then_pack (some a) g pack h = rw h refl

module _ (n : ℕ) (e : ℕ → ℕ → String) where
  pub connect-join :
      (sg : ServerGrp) (v : View) (i : ℕ) (to : List ℕ)
      → i < n
      → Below n to
      → Shows n e sg v
      → (sg' : ServerGrp) × (connect i to sg ≡ some sg') × Shows n e sg' (join i to v)
  unfolding connect join connect_out
  connect-join sg v i to hi below h =
      let (s, l, es, el, get) = h.named.servers i hi in
      let (c, ec, ups) = assign-Ups n e sg.connected v.up i true hi h.ups in
      let sets =
        both-Sets n e (any_row (out_row (update v.up i true) i) to)
          (any_row (in_row (update v.up i true) i) to) true (each (enable_out c s) to)
          (each (enable_in c sg.srvs i) to)
          (each-Links n e (enable_out c s) (out_row (update v.up i true) i) true to
            (λ j hj. enable_out-Sets n e sg c (update v.up i true) s i j h.named ups es hi hj)
            below)
          (each-Links n e (enable_in c sg.srvs i) (in_row (update v.up i true) i) true to
            (λ j hj. enable_in-Sets n e sg.srvs c (update v.up i true) i j h.named ups hi hj)
            below) in
      let (net, en, links) = sets sg.net v.links h.shown in
      (
        record sg { net = net; connected = c },
        rw (ec, es)
            (then_pack (each (enable_out c s) to sg.net) (each (enable_in c sg.srvs i) to)
              (λ net. record sg { net = net; connected = c }) en),
        record {
          named = h.named;
          ups = ups;
          shown = λ a b ha hb.
              links a b ha hb
              ∙ rw (any_out (update v.up i true) i a b to, any_in (update v.up i true) i a b to)
                  refl;
        },
      )

  pub disconnect-leave :
      (sg : ServerGrp) (v : View) (i : ℕ) (from : List ℕ)
      → i < n
      → Below n from
      → Shows n e sg v
      → (sg' : ServerGrp) × (disconnect i from sg ≡ some sg') × Shows n e sg' (leave i from v)
  unfolding disconnect leave
  disconnect-leave sg v i from hi below h =
      let (s, l, es, el, get) = h.named.servers i hi in
      let (c, ec, ups) = assign-Ups n e sg.connected v.up i false hi h.ups in
      let sets =
        both-Sets n e (any_row (λ j a b. a == i && b == j) from)
          (any_row (λ j a b. a == j && b == i) from) false (disconnect_out s from)
          (each (disable_in sg.srvs i) from)
          (disconnect_out-Sets n e sg.srvs s i from h.named es hi below)
          (each-Links n e (disable_in sg.srvs i) (λ j a b. a == j && b == i) false from
            (λ j hj. disable_in-Sets n e sg.srvs i j h.named hi hj) below) in
      let (net, en, links) = sets sg.net v.links h.shown in
      (
        record sg { net = net; connected = c },
        rw (ec, es)
            (then_pack (disconnect_out s from sg.net) (each (disable_in sg.srvs i) from)
              (λ net. record sg { net = net; connected = c }) en),
        record {
          named = h.named;
          ups = ups;
          shown = λ a b ha hb. links a b ha hb ∙ rw (any_from i a b from, any_to i a b from) refl;
        },
      )
