-- ===== src/Labrpc/Apart.antt =====
-- labrpc/labrpc.go: the operations on one end and the requests of another.
use mathlib.Core.Option.{some-injective, none-ne-some}
use linearizable_kv_store.Prelude.{
  ℕ, ◌≡◌, ◌≢◌, refl, ap, subst, ◌∙◌, ◌||◌, not, Bool, false, Option, none, some, String,
}
use linearizable_kv_store.Prelude.Dict.{Dict, insert_ne, erase_ne}
use linearizable_kv_store.Labrpc.{
  ClientEnd, Network, or_nil, or_false, server_of, differs, read_endname_info, is_server_dead,
  make_end, make_end_at, delete_end_at, delete_end, connect, enable,
}
use linearizable_kv_store.Labrpc.Process.{Route, is_dead}

-- The operations on one end.
pub data EndOp (endname : String) (rn : Network) : Network → Type 0 where
  makes :
      {rn' : Network} {e : ClientEnd} → make_end endname rn ≡ some (rn', e) → EndOp endname rn rn'
  deletes : {rn' : Network} → delete_end endname rn ≡ some rn' → EndOp endname rn rn'
  connects : (servername : String) → EndOp endname rn (connect endname servername rn)
  enables : (b : Bool) → EndOp endname rn (enable endname b rn)

SameWay : String → Network → Network → Type 0
SameWay other rn rn' =
    (rn'.enabled other ≡ rn.enabled other)
    × (rn'.connections other ≡ rn.connections other)
    × (rn'.servers ≡ rn.servers)
    × (rn'.reliable ≡ rn.reliable)
    × (rn'.long_reordering ≡ rn.long_reordering)

makes-SameWay :
    (o : Option ClientEnd) (endname other : String) (rn rn' : Network) (e : ClientEnd)
    → make_end_at o endname rn ≡ some (rn', e)
    → endname ≢ other
    → SameWay other rn rn'
unfolding SameWay
makes-SameWay (some old) endname other rn rn' e p apart = absurd (none-ne-some _ p)
makes-SameWay none endname other rn rn' e p apart =
    subst (SameWay other rn) (ap (λ (r : Network × ClientEnd). r.0) (some-injective _ _ p)) (
      insert_ne endname other false rn.enabled apart,
      insert_ne endname other none rn.connections apart,
      refl,
      refl,
      refl,
    )

deletes-SameWay :
    (o : Option ClientEnd) (endname other : String) (rn rn' : Network)
    → delete_end_at o endname rn ≡ some rn'
    → endname ≢ other
    → SameWay other rn rn'
unfolding SameWay
deletes-SameWay none endname other rn rn' p apart = absurd (none-ne-some _ p)
deletes-SameWay (some old) endname other rn rn' p apart =
    subst (SameWay other rn) (some-injective _ _ p) (
      erase_ne endname other rn.enabled apart,
      erase_ne endname other rn.connections apart,
      refl,
      refl,
      refl,
    )

EndOp-SameWay :
    (endname other : String) {rn rn' : Network}
    → EndOp endname rn rn'
    → endname ≢ other
    → SameWay other rn rn'
unfolding SameWay make_end delete_end connect enable
EndOp-SameWay endname other {rn} {rn'} (makes {e = e} p) apart =
    makes-SameWay (rn.ends endname) endname other rn rn' e p apart
EndOp-SameWay endname other {rn} {rn'} (deletes p) apart =
    deletes-SameWay (rn.ends endname) endname other rn rn' p apart
EndOp-SameWay endname other {rn} (connects servername) apart =
    (refl, insert_ne endname other (some servername) rn.connections apart, refl, refl, refl)
EndOp-SameWay endname other {rn} (enables b) apart =
    (insert_ne endname other b rn.enabled apart, refl, refl, refl, refl)

SameWay-server_of :
    (rn rn' : Network) (name : Option String)
    → rn'.servers ≡ rn.servers
    → server_of rn' name ≡ server_of rn name
SameWay-server_of rn rn' none s = refl
SameWay-server_of rn rn' (some name) s = ap (λ (m : Dict (Option ℕ)). or_nil (m name)) s

SameWay-info :
    (other : String) (rn rn' : Network)
    → SameWay other rn rn'
    → (read_endname_info other rn' ≡ read_endname_info other rn)
unfolding SameWay read_endname_info
SameWay-info other rn rn' (e, c, s, r, l) =
    let name = ap or_nil c in
    let server =
      SameWay-server_of rn rn' (or_nil (rn'.connections other)) s ∙ ap (server_of rn) name in
    λ i. record {
      enabled = or_false (e i);
      servername = name i;
      server = server i;
      reliable = r i;
      long_reordering = l i;
    }

SameWay-dead :
    (other : String) (rn rn' : Network) (route : Route)
    → SameWay other rn rn'
    → is_dead other route rn' ≡ is_dead other route rn
unfolding SameWay is_server_dead
SameWay-dead other rn rn' route (e, c, s, r, l) =
    λ i. not (or_false (e i)) || differs (or_nil (s i route.servername)) route.server

-- Making, deleting, connecting or enabling one end changes nothing for the requests of another: what is read
-- for them when they arrive, and whether their server is taken for dead.
pub EndOp-apart :
    (endname other : String) (route : Route) {rn rn' : Network}
    → EndOp endname rn rn'
    → endname ≢ other
    → (read_endname_info other rn' ≡ read_endname_info other rn)
      × (is_dead other route rn' ≡ is_dead other route rn)
EndOp-apart endname other route {rn} {rn'} op apart =
    let same = EndOp-SameWay endname other op apart in
    (SameWay-info other rn rn' same, SameWay-dead other rn rn' route same)
