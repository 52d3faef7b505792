-- ===== src/Tester/Group/Made.antt =====
-- tester1/group.go and srv.go: a group that has just been made.
use linearizable_kv_store.Tester.Group.Fresh.{
  Kept, Kept-trans, New, New-later, New-sooner, New-apart, Ends, Members, one_more, make_ends-Ends,
}
use linearizable_kv_store.Prelude.{
  ℕ, zero, suc, ◌<◌, ◌≡◌, ◌≢◌, refl, sym, ap, ◌∙◌, subst, false, none, some, List, String,
  get_elem?, arith,
}
use mathlib.Core.Option.{some-injective}
use native.Mathlib.Decide.{dec_lt}
use linearizable_kv_store.Prelude.Panic.{>>=-eq-some}
use linearizable_kv_store.Labrpc.{Network}
use linearizable_kv_store.Tester.Group.{
  Server, ServerGrp, make_ends, make_server, make_servers, make_srv_grp, server_name, replicate,
}
use linearizable_kv_store.Tester.Group.View.{Shows}

module _ (rand : ℕ → ℕ → String) (gid n : ℕ) where
  -- The ends of `k` servers are new.
  record AllEnds (k : ℕ) (net net' : Network) : Type 0 where
    kept : Kept net net'
    new : (i j : ℕ) → i < k → j < n → New (rand i j) (server_name gid j) net net'
    apart : (i j a b : ℕ) → i < k → j < n → a < k → b < n → rand i j ≡ rand a b → (i ≡ a) × (j ≡ b)

  more-AllEnds :
      (k : ℕ) (a b c : Network) → AllEnds k a b → Ends (rand k) gid n b c → AllEnds (suc k) a c
  more-AllEnds k a b c f g = record {
    kept = Kept-trans a b c f.kept g.kept;
    new = λ i j hi hj. elim (dec_lt i k) [
      | yes below ↦ New-later a b c (rand i j) (server_name gid j) (f.new i j below hj) g.kept
      | no last ↦
          subst (λ i. New (rand i j) (server_name gid j) a c) (omega arith)
            (New-sooner a b c (rand k j) (server_name gid j) f.kept (g.new j hj))
    ];
    apart = λ i j x y hi hj hx hy e. elim (dec_lt i k) [
      | yes bi ↦ elim (dec_lt x k) [
        | yes bx ↦ f.apart i j x y bi hj bx hy e
        | no lx ↦ absurd (
            New-apart a b c (rand i j) (rand k y) (f.new i j bi hj) (g.new y hy)
              (e ∙ ap (λ x. rand x y) (omega arith)))
      ]
      | no li ↦ elim (dec_lt x k) [
        | yes bx ↦ absurd (
            New-apart a b c (rand x y) (rand k j) (f.new x y bx hy) (g.new j hj)
              (sym e ∙ ap (λ i. rand i j) (omega arith)))
        | no lx ↦ (
          omega arith,
          g.apart j y hj hy
              (ap (λ i. rand i j) (omega arith) ∙ e ∙ ap (λ x. rand x y) (omega arith)),
        )
      ]
    ];
  }

  -- Server `i` has all names of its ends.
  abbrev Ready : ℕ → Server → Type 0
  Ready i s = (l : List String) × (s.end_names ≡ some l) × Members n (λ j x. x ≡ rand i j) l

  make_server-Ready :
      (i : ℕ) (net : Network) {s : Server} {net' : Network}
      → make_server (rand i) gid n net ≡ some (s, net')
      → Ready i s × Ends (rand i) gid n net net'
  unfolding make_server
  make_server-Ready i net {s} {net'} h =
      let ((l, net1), e1, h1) = >>=-eq-some (make_ends (rand i) gid n net) _ h in
      let (m, f) = make_ends-Ends (rand i) gid n net e1 in
      subst (λ r. Ready i r.0 × Ends (rand i) gid n net r.1) (some-injective _ _ h1)
        ((l, refl, m), f)

  make_servers-Ready :
      (k : ℕ) (net : Network) {srvs : List Server} {net' : Network}
      → make_servers rand gid n k net ≡ some (srvs, net')
      → Members k Ready srvs × AllEnds k net net'
  unfolding make_servers
  make_servers-Ready zero net h =
      subst (λ r. Members 0 Ready r.0 × AllEnds 0 net r.1) (some-injective _ _ h)
        (
          record { size = refl; member = λ i hi. absurd (omega arith) },
          record {
            kept = λ y q. (q, refl, refl);
            new = λ i j hi. absurd (omega arith);
            apart = λ i j a b hi. absurd (omega arith);
          },
        )
  make_servers-Ready (suc k) net h =
      let ((srvs1, net1), e1, h1) = >>=-eq-some (make_servers rand gid n k net) _ h in
      let ((s, net2), e2, h2) = >>=-eq-some (make_server (rand k) gid n net1) _ h1 in
      let (m, f) = make_servers-Ready k net e1 in
      let (r, g) = make_server-Ready k net1 e2 in
      subst (λ r. Members (suc k) Ready r.0 × AllEnds (suc k) net r.1) (some-injective _ _ h2)
        (one_more srvs1 s r m, more-AllEnds k net net1 net2 f g)

  get_elem?-replicate :
      {A : Type 0} (m i : ℕ) (a : A) → i < m → get_elem? (replicate m a) i ≡ some a
  get_elem?-replicate zero i a h = absurd (omega arith)
  get_elem?-replicate (suc m) zero a h = refl
  get_elem?-replicate (suc m) (suc i) a h = get_elem?-replicate m i a (omega arith)

  -- A group that was made on a network: its servers' ends, which are all disabled, with no server
  -- connected; each end leads to its server, and the ends that were on the network before are as they were.
  pub record GroupMade (net : Network) (sg : ServerGrp) : Type 0 where
    pub shows : Shows n rand sg (record { up = λ i. false; links = λ i j. false })
    pub there : (i j : ℕ) → i < n → j < n → sg.net.ends (rand i j) ≢ none
    pub leads :
        (i j : ℕ) → i < n → j < n → sg.net.connections (rand i j) ≡ some (some (server_name gid j))
    pub kept : Kept net sg.net

  -- A group that has just been made, whatever random names its ends got, and whatever was on the network
  -- before: every server has an end to every server of the group, which is connected to that server, all
  -- ends have different names, none is enabled, no server is connected, and the ends that were on the
  -- network before are enabled and connected as they were.
  pub make_srv_grp-GroupMade :
      (net : Network) (sg : ServerGrp) → make_srv_grp rand gid n net ≡ some sg → GroupMade net sg
  unfolding make_srv_grp
  make_srv_grp-GroupMade net sg h =
      let ((srvs, net'), e, h1) = >>=-eq-some (make_servers rand gid n n net) _ h in
      let (m, f) = make_servers-Ready n net e in
      subst (GroupMade net) (some-injective _ _ h1) (record {
        shows = record {
          named = record {
            size = m.size;
            servers = λ i hi.
                let (s, es, (l, el, names)) = m.member i hi in
                (s, l, es, el, λ j hj. let (x, ex, p) = names.member j hj in ex ∙ ap some p);
            distinct = λ i j a b hi hj ha hb. f.apart i j a b hi hj ha hb;
          };
          ups = λ i hi. get_elem?-replicate n i false hi;
          shown = λ i j hi hj. let (_, _, off, _) = f.new i j hi hj in off;
        };
        there = λ i j hi hj. let (_, there, _, _) = f.new i j hi hj in there;
        leads = λ i j hi hj. let (_, _, _, to) = f.new i j hi hj in to;
        kept = f.kept;
      })
