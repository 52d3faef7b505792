-- ===== src/Tester/Clnt/Calling.antt =====
-- tester1/clnts.go: the end that a clerk calls a server by, and the removal of a clerk.
use linearizable_kv_store.Prelude.{
  ◌≡◌, ◌≢◌, refl, sym, ap, ◌∙◌, false, Option-cases, Option, none, some, List, [], ◌∷◌, ◌++◌,
  String, inl, inr, arith,
}
use mathlib.Core.Option.{none-ne-some}
use linearizable_kv_store.Prelude.Dict.{insert, insert_self, insert_ne}
use linearizable_kv_store.Prelude.Panic.{each}
use linearizable_kv_store.Labrpc.{
  Network, or_false, make_end as labrpc_make_end, delete_end, connect, enable,
}
use linearizable_kv_store.Tester.Clnt.{Clnt, allowed, find, make_end, make_end_at, remove}
use linearizable_kv_store.Prelude.Dict.{erase, erase_self, erase_ne}
use linearizable_kv_store.Labrpc.{read_endname_info, or_nil}
use linearizable_kv_store.Tester.Clnt.Allowed.{
  All, Distinct, Wired, Current, All-map, All-both, All-find, All-snoc, Distinct-snoc,
}

-- What makeEnd gives for a server that the clerk has no end to.
abbrev made : String → String → Clnt → Network → Network
unfolding allowed
made fresh server clnt net = enable fresh (allowed clnt.srvs server) (
    connect fresh server (record net {
      ends = insert fresh (record { endname = fresh }) net.ends;
      enabled = insert fresh false net.enabled;
      connections = insert fresh none net.connections;
    }))

module _ (fresh server : String) (clnt : Clnt) (net : Network) (free : net.ends fresh ≡ none)
    (w : Wired clnt net) where
  others : All (λ _ other. other ≢ fresh) clnt.ends
  others =
      All-map (λ s name. (net.ends name ≢ none) × (net.connections name ≡ some (some s)))
        (λ _ other. other ≢ fresh) clnt.ends (λ s name h e. h.0 (ap net.ends e ∙ free)) w.wires

  made-Wired :
      Wired (record clnt { ends = clnt.ends ++ (server, fresh) ∷ [] }) (made fresh server clnt net)
  unfolding made enable connect
  made-Wired = record {
    names = Distinct-snoc clnt.ends server fresh w.names others;
    wires =
        All-snoc
          (λ s name.
            ((made fresh server clnt net).ends name ≢ none)
            × ((made fresh server clnt net).connections name ≡ some (some s)))
          clnt.ends server fresh
          (All-both (λ _ other. other ≢ fresh)
            (λ s name. (net.ends name ≢ none) × (net.connections name ≡ some (some s)))
            (λ s name.
              ((made fresh server clnt net).ends name ≢ none)
              × ((made fresh server clnt net).connections name ≡ some (some s)))
            clnt.ends
            (λ s name ne h. (
              λ z. h.0 (sym (insert_ne fresh name _ net.ends (λ e. ne (sym e))) ∙ z),
              insert_ne fresh name _ (insert fresh none net.connections) (λ e. ne (sym e))
                  ∙ insert_ne fresh name none net.connections (λ e. ne (sym e))
                  ∙ h.1,
            ))
            others w.wires)
          (
            λ z. none-ne-some _ (sym z ∙ insert_self fresh _ net.ends),
            insert_self fresh (some server) (insert fresh none net.connections),
          );
  }

  made-Current :
      Current clnt net
      → Current
          (record clnt { ends = clnt.ends ++ (server, fresh) ∷ [] })
          (made fresh server clnt net)
  unfolding made enable connect Current
  made-Current cur =
      All-snoc
        (λ s name. or_false ((made fresh server clnt net).enabled name) ≡ allowed clnt.srvs s)
        clnt.ends server fresh
        (All-both (λ _ other. other ≢ fresh)
          (λ s name. or_false (net.enabled name) ≡ allowed clnt.srvs s)
          (λ s name. or_false ((made fresh server clnt net).enabled name) ≡ allowed clnt.srvs s)
          clnt.ends
          (λ s name ne h.
            ap or_false (
              insert_ne fresh name (allowed clnt.srvs server) (insert fresh false net.enabled)
                (λ e. ne (sym e))
              ∙ insert_ne fresh name false net.enabled (λ e. ne (sym e)))
            ∙ h)
          others cur)
        (ap or_false
          (insert_self fresh (allowed clnt.srvs server) (insert fresh false net.enabled)))

-- The end that a clerk calls a server by, where every end of the clerk is enabled exactly if its server is
-- allowed, and the random name of a new end is not taken: there is one, its requests go to that
-- server, it is enabled exactly if the server is allowed, and the same holds of all ends of the clerk
-- afterwards.
pub make_end-Current :
    (fresh server : String) (clnt : Clnt) (net : Network)
    → net.ends fresh ≡ none
    → Wired clnt net
    → Current clnt net
    → (clnt' : Clnt) × (net' : Network) × (name : String) × (make_end fresh server clnt net
        ≡ some (clnt', net', name))
      × ((read_endname_info name net').enabled ≡ allowed clnt.srvs server)
      × ((read_endname_info name net').servername ≡ some server)
      × Wired clnt' net'
      × Current clnt' net'
unfolding Current make_end make_end_at labrpc_make_end made connect enable read_endname_info
make_end-Current fresh server clnt net free w cur = elim (Option-cases (find server clnt.ends)) [
  | inr (name, h) ↦ (
    clnt,
    net,
    name,
    rw h refl,
    All-find (λ s n. or_false (net.enabled n) ≡ allowed clnt.srvs s) server name clnt.ends h cur,
    ap or_nil
        (All-find (λ s n. (net.ends n ≢ none) × (net.connections n ≡ some (some s))) server name
          clnt.ends h w.wires).1,
    w,
    cur,
  )
  | inl h ↦ (
    record clnt { ends = clnt.ends ++ (server, fresh) ∷ [] },
    made fresh server clnt net,
    fresh,
    rw (h, free) refl,
    ap or_false (insert_self fresh (allowed clnt.srvs server) (insert fresh false net.enabled)),
    ap or_nil (insert_self fresh (some server) (insert fresh none net.connections)),
    made-Wired fresh server clnt net free w,
    made-Current fresh server clnt net free w cur,
  )
]

erase-none :
    {V : Type 0} (k : String) (m : String → Option V) (j : String) → m j ≡ none → erase k m j ≡ none
erase-none k m j h = ground (arith, h)

delete_end-some :
    (name : String) (net : Network)
    → net.ends name ≢ none
    → (net' : Network) × (delete_end name net ≡ some net')
      × (net'.ends name ≡ none)
      × ((x : String) → name ≢ x → net'.ends x ≡ net.ends x)
      × ((x : String) → net.ends x ≡ none → net'.ends x ≡ none)
unfolding delete_end
delete_end-some name net h = elim (Option-cases (net.ends name)) [
  | inl e ↦ absurd (h e)
  | inr (c, e) ↦ (
    record net {
      ends = erase name net.ends;
      enabled = erase name net.enabled;
      connections = erase name net.connections;
    },
    rw e refl,
    erase_self name net.ends,
    λ x ne. erase_ne name x net.ends ne,
    erase-none name net.ends,
  )
]

abbrev pub Gone : Network → List (String × String) → Type 0
Gone net = All (λ _ name. net.ends name ≡ none)

removes :
    (ends : List (String × String)) (net : Network)
    → Distinct ends
    → All (λ _ name. net.ends name ≢ none) ends
    → (net' : Network) × (each (λ (s, name). delete_end name) ends net ≡ some net')
      × Gone net' ends
      × ((x : String) → net.ends x ≡ none → net'.ends x ≡ none)
removes [] net d a = (net, refl, tt, λ x h. h)
removes ((s, name) ∷ ends) net d a =
    let (net1, e1, gone, same, none_yet) = delete_end-some name net a.0 in
    let (net2, e2, all, still) = removes ends net1 d.1 (
      All-both (λ _ other. name ≢ other) (λ _ other. net.ends other ≢ none)
        (λ _ other. net1.ends other ≢ none) ends (λ _ x ne h z. h (sym (same x ne) ∙ z)) d.0 a.1) in
    (net2, rw e1 e2, (still name gone, all), λ x h. still x (none_yet x h))

-- The removal of a clerk whose ends are on the network is never fatal, and none of its ends is left.
pub remove-Gone :
    (clnt : Clnt) (net : Network)
    → Wired clnt net
    → (net' : Network) × (remove clnt net ≡ some net') × Gone net' clnt.ends
unfolding remove
remove-Gone clnt net w =
    let (net', e, gone, _) = removes clnt.ends net w.names (
      All-map (λ s name. (net.ends name ≢ none) × (net.connections name ≡ some (some s)))
        (λ _ name. net.ends name ≢ none) clnt.ends (λ s name h. h.0) w.wires) in
    (net', e, gone)
