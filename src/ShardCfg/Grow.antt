-- ===== src/ShardCfg/Grow.antt =====
-- shardkv1/shardcfg/shardcfg.go: Join and JoinBalance.
use linearizable_kv_store.Prelude.{
  ℕ, ◌+◌, ◌≡◌, refl, sym, ◌∙◌, ap, subst, Bool, true, false, Option, List, [], ◌∷◌, ◌++◌, ◌==◌,
  arith, Bool-cases, inl, inr, some, String, append_assoc, append-nil,
}
use mathlib.Core.Option.{some-injective, none-ne-some}
use linearizable_kv_store.Prelude.Panic.{>>=-eq-some}
use linearizable_kv_store.Prelude.Assoc.{mem, Distinct, keys, has}
use linearizable_kv_store.ShardCfg.{ShardConfig}
use linearizable_kv_store.ShardCfg.Change.{
  join_groups, join, join_balance, taken, finish, balance_if,
}
use linearizable_kv_store.ShardCfg.Check.{check_config}
use linearizable_kv_store.ShardCfg.Balance.{IsValid}
use linearizable_kv_store.ShardCfg.Accepted.{Settled, rebalance-Settled}

abbrev Groups : Type 0
Groups = List (ℕ × List String)

keys-append : (xs ys : Groups) → keys (xs ++ ys) ≡ keys xs ++ keys ys
keys-append [] ys = refl
keys-append ((k, v) ∷ xs) ys = ap (λ l. k ∷ l) (keys-append xs ys)

mem-append-false :
    (x : ℕ) (xs : List ℕ) (y : ℕ)
    → mem x xs ≡ false
    → (x == y) ≡ false
    → mem x (xs ++ y ∷ []) ≡ false
mem-append-false x [] y h e = ground arith
mem-append-false x (z ∷ xs) y h e = ground (arith, mem-append-false x xs y)

Distinct-snoc : (xs : List ℕ) (y : ℕ) → Distinct xs → mem y xs ≡ false → Distinct (xs ++ y ∷ [])
Distinct-snoc [] y d h = (refl, tt)
Distinct-snoc (x ∷ xs) y d h =
    (mem-append-false x xs y d.0 (ground arith), Distinct-snoc xs y d.1 (ground arith))

-- What the loop of Join comes to: all the new groups are added, or those before one whose gid is
-- there already.
data Added (new groups groups' : Groups) : Bool → Type 0 where
  all_new : groups' ≡ groups ++ new → Distinct (keys groups') → Added new groups groups' true
  re_join :
      (before after : Groups) (gid : ℕ) (servers : List String)
      → new ≡ before ++ (gid, servers) ∷ after
      → groups' ≡ groups ++ before
      → has gid groups' ≡ true
      → Added new groups groups' false

later :
    {new groups groups' : Groups} {b : Bool} (g : ℕ × List String)
    → Added new (groups ++ g ∷ []) groups' b
    → Added (g ∷ new) groups groups' b
later {new} {groups} g (all_new e d) = all_new (e ∙ append_assoc groups (g ∷ []) new) d
later {new} {groups} g (re_join before after gid servers split e h) =
    re_join (g ∷ before) after gid servers (ap (λ l. g ∷ l) split)
      (e ∙ append_assoc groups (g ∷ []) before) h

added :
    {new groups a c : Groups} {x y : Bool}
    → ◌≡◌ {A = Option (Groups × Bool)} (some (a, x)) (some (c, y))
    → Added new groups a x
    → Added new groups c y
added {new} {groups} e d = subst (λ t. Added new groups t.0 t.1) (some-injective _ _ e) d

join_groups-Added :
    (new groups : Groups) {groups' : Groups} {b : Bool}
    → Distinct (keys groups)
    → join_groups new groups ≡ some (groups', b)
    → Added new groups groups' b
unfolding join_groups
join_groups-Added [] groups d h = added h (all_new (sym (append-nil groups)) d)
join_groups-Added ((gid, servers) ∷ more) groups d h = elim (Bool-cases (has gid groups)) [
  | inl p ↦ added (rw p at h) (re_join [] more gid servers refl (sym (append-nil groups)) p)
  | inr p ↦ elim (Bool-cases (taken groups servers)) [
    | inl q ↦ absurd (none-ne-some _ (rw (p, q) at h))
    | inr q ↦
        later (gid, servers)
          (join_groups-Added more (groups ++ (gid, servers) ∷ [])
            (rw (keys-append groups ((gid, servers) ∷ [])) (Distinct-snoc (keys groups) gid d p))
            (rw (p, q) at h))
  ]
]

-- What Join with Rebalance comes to. It went through: the new groups follow the old ones, the number
-- has grown by one, and CheckConfig accepts the result for its groups. Or it was refused: a gid of
-- the call was there already, the groups before it in the call stay in the configuration, and the
-- number and the shards are as they were.
pub data Joined (new : Groups) (cfg r : ShardConfig) : Bool → Type 0 where
  grown :
      r.num ≡ cfg.num + 1
      → r.groups ≡ cfg.groups ++ new
      → IsValid r
      → check_config (keys r.groups) r ≡ true
      → Joined new cfg r true
  refused :
      (before after : Groups) (gid : ℕ) (servers : List String)
      → new ≡ before ++ (gid, servers) ∷ after
      → has gid r.groups ≡ true
      → r ≡ record cfg { groups = cfg.groups ++ before }
      → Joined new cfg r false

settled :
    (new : Groups) (cfg r : ShardConfig) (groups : Groups)
    → groups ≡ cfg.groups ++ new
    → Settled (record cfg { groups = groups; num = cfg.num + 1 }) r
    → Joined new cfg r true
settled new cfg r groups e s = grown s.same_num (s.same_groups ∙ e) s.valid s.accepted

finish-Joined :
    (new : Groups) (cfg : ShardConfig) (groups : Groups) (through : Bool) (x : ShardConfig × Bool)
    → IsValid cfg
    → Added new cfg.groups groups through
    → finish new cfg groups through ≡ some x
    → Joined new cfg (balance_if x.0 x.1).0 (balance_if x.0 x.1).1
unfolding finish balance_if
finish-Joined new cfg groups false x v (re_join before after gid servers split e p) h =
    subst (λ y. Joined new cfg (balance_if y.0 y.1).0 (balance_if y.0 y.1).1) (some-injective _ _ h)
      (refused before after gid servers split p (ap (λ (g : Groups). record cfg { groups = g }) e))
finish-Joined [] cfg groups true x v a h = absurd (none-ne-some x h)
finish-Joined (g ∷ gs) cfg groups true x v (all_new e d) h =
    subst (λ y. Joined (g ∷ gs) cfg (balance_if y.0 y.1).0 (balance_if y.0 y.1).1)
      (some-injective _ _ h)
      (settled (g ∷ gs) cfg _ groups e (
        rebalance-Settled (record cfg { groups = groups; num = cfg.num + 1 })
          (record { twelve = v.twelve; distinct = d })))

-- JoinBalance in a configuration with twelve shards and each group once, when it does not stop the program
-- (with no group to join, or with a server that two groups would share). Either it went through: the new
-- groups follow the old ones, the number has grown by one, there are twelve shards and each group once, and
-- CheckConfig accepts the result for its groups. Or it was refused: a gid of the call was there already,
-- the groups before it in the call stay in the configuration, and the number and the shards are as they
-- were.
pub join_balance-Joined :
    (new : Groups) (cfg : ShardConfig) {r : ShardConfig} {b : Bool}
    → IsValid cfg
    → join_balance new cfg ≡ some (r, b)
    → Joined new cfg r b
unfolding join_balance join
join_balance-Joined new cfg v h =
    let (x, ran, rest) = >>=-eq-some (join new cfg) _ h in
    let (looped, found, last) = >>=-eq-some (join_groups new cfg.groups) _ ran in
    subst (λ t. Joined new cfg t.0 t.1) (some-injective _ _ rest)
      (finish-Joined new cfg looped.0 looped.1 x v
        (join_groups-Added new cfg.groups v.distinct found) last)
