-- ===== src/ShardCfg/Shrink.antt =====
-- shardkv1/shardcfg/shardcfg.go: Leave and LeaveBalance.
use linearizable_kv_store.Prelude.{
  ℕ, ◌+◌, ◌≡◌, refl, ap, subst, Bool, true, false, List, [], ◌∷◌, ◌++◌, if◌then◌else◌, arith,
  Bool-cases, inl, inr, some, none, String,
}
use mathlib.Core.Option.{some-injective, none-ne-some}
use linearizable_kv_store.Prelude.Panic.{◌>>=◌}
use linearizable_kv_store.Prelude.Assoc.{
  mem, Distinct, keys, has, lookup, erase, lookup-erase, Distinct-erase,
}
use linearizable_kv_store.ShardCfg.{ShardConfig}
use linearizable_kv_store.ShardCfg.Change.{leave_groups, leave, leave_balance, finish, balance_if}
use linearizable_kv_store.ShardCfg.Check.{check_config}
use linearizable_kv_store.ShardCfg.Balance.{IsValid}
use linearizable_kv_store.ShardCfg.Accepted.{Settled, rebalance-Settled}

abbrev Groups : Type 0
Groups = List (ℕ × List String)

-- `groups'` is `groups` without these gids.
pub record Without (gids : List ℕ) (groups groups' : Groups) : Type 0 where
  pub lookups : (k : ℕ) → lookup k groups' ≡ (if mem k gids then none else lookup k groups)
  pub distinct : Distinct (keys groups')

-- What the loop of Leave comes to: all the gids are gone, or those before one that is no group.
data Removed (gids : List ℕ) (groups groups' : Groups) : Bool → Type 0 where
  all_gone : Without gids groups groups' → Removed gids groups groups' true
  not_there :
      (before after : List ℕ) (gid : ℕ)
      → gids ≡ before ++ gid ∷ after
      → Without before groups groups'
      → has gid groups' ≡ false
      → Removed gids groups groups' false

Without-cons :
    (g : ℕ) {gids : List ℕ} {groups groups' : Groups}
    → Without gids (erase g groups) groups'
    → Without (g ∷ gids) groups groups'
Without-cons g {gids} {groups} w = record {
  lookups = λ k. ground (arith, w.lookups k, lookup-erase g k groups);
  distinct = w.distinct;
}

leave_groups-Removed :
    (gids : List ℕ) (groups : Groups)
    → Distinct (keys groups)
    → Removed gids groups (leave_groups gids groups).0 (leave_groups gids groups).1
unfolding leave_groups
leave_groups-Removed [] groups d = all_gone (record { lookups = λ k. refl; distinct = d })
leave_groups-Removed (gid ∷ more) groups d = elim (Bool-cases (has gid groups)) [
  | inr p ↦ rw p (not_there [] more gid refl (record { lookups = λ k. refl; distinct = d }) p)
  | inl p ↦
      rw p (later (leave_groups-Removed more (erase gid groups) (Distinct-erase gid groups d)))
]
  where
    later :
        {groups' : Groups} {b : Bool}
        → Removed more (erase gid groups) groups' b
        → Removed (gid ∷ more) groups groups' b
    later (all_gone w) = all_gone (Without-cons gid w)
    later (not_there before after g split w h) =
        not_there (gid ∷ before) after g (ap (λ l. gid ∷ l) split) (Without-cons gid w) h

-- What Leave with Rebalance comes to. It went through: the groups of the call are gone and the others
-- are as they were, the number has grown by one, and CheckConfig accepts the result for its groups.
-- Or it was refused: a gid of the call was no group when its turn came, the groups before it are gone,
-- and the number and the shards are as they were.
pub data Left (gids : List ℕ) (cfg r : ShardConfig) : Bool → Type 0 where
  shrunk :
      r.num ≡ cfg.num + 1
      → Without gids cfg.groups r.groups
      → IsValid r
      → check_config (keys r.groups) r ≡ true
      → Left gids cfg r true
  refused :
      (before after : List ℕ) (gid : ℕ)
      → gids ≡ before ++ gid ∷ after
      → has gid r.groups ≡ false
      → Without before cfg.groups r.groups
      → r.num ≡ cfg.num
      → r.shards ≡ cfg.shards
      → Left gids cfg r false

settled :
    (gids : List ℕ) (cfg r : ShardConfig) (groups : Groups)
    → Without gids cfg.groups groups
    → Settled (record cfg { groups = groups; num = cfg.num + 1 }) r
    → Left gids cfg r true
settled gids cfg r groups w s = shrunk s.same_num (rw s.same_groups w) s.valid s.accepted

finish-Left :
    (gids : List ℕ) (cfg : ShardConfig) (groups : Groups) (through : Bool) (x : ShardConfig × Bool)
    → IsValid cfg
    → Removed gids cfg.groups groups through
    → finish gids cfg groups through ≡ some x
    → Left gids cfg (balance_if x.0 x.1).0 (balance_if x.0 x.1).1
unfolding finish balance_if
finish-Left gids cfg groups false x v (not_there before after gid split w p) h =
    subst (λ y. Left gids cfg (balance_if y.0 y.1).0 (balance_if y.0 y.1).1) (some-injective _ _ h)
      (refused before after gid split p w refl refl)
finish-Left [] cfg groups true x v a h = absurd (none-ne-some x h)
finish-Left (g ∷ gs) cfg groups true x v (all_gone w) h =
    subst (λ y. Left (g ∷ gs) cfg (balance_if y.0 y.1).0 (balance_if y.0 y.1).1)
      (some-injective _ _ h)
      (settled (g ∷ gs) cfg _ groups w (
        rebalance-Settled (record cfg { groups = groups; num = cfg.num + 1 })
          (record { twelve = v.twelve; distinct = w.distinct })))

finish-returns :
    (g : ℕ) (gs : List ℕ) (cfg : ShardConfig) (groups : Groups) (through : Bool)
    → (x : ShardConfig × Bool) × (finish (g ∷ gs) cfg groups through ≡ some x)
unfolding finish
finish-returns g gs cfg groups true = (_, refl)
finish-returns g gs cfg groups false = (_, refl)

-- LeaveBalance of at least one gid, in a configuration with twelve shards and each group once, returns.
-- Either it went through: the groups of the call are gone and the others are as they were, the number has
-- grown by one, there are twelve shards and each group once, and CheckConfig accepts the result for its
-- groups. Or it was refused: a gid of the call was no group when its turn came, the groups before it in
-- the call are gone, and the number and the shards are as they were.
pub leave_balance-Left :
    (gid : ℕ) (gids : List ℕ) (cfg : ShardConfig)
    → IsValid cfg
    → (r : ShardConfig) × (b : Bool) × (leave_balance (gid ∷ gids) cfg ≡ some (r, b))
      × Left (gid ∷ gids) cfg r b
unfolding leave_balance leave
leave_balance-Left gid gids cfg v =
    let looped = leave_groups (gid ∷ gids) cfg.groups in
    let (x, ran) = finish-returns gid gids cfg looped.0 looped.1 in
    (
      (balance_if x.0 x.1).0,
      (balance_if x.0 x.1).1,
      ap (λ m. m >>= λ (left : ShardConfig × Bool). some (balance_if left.0 left.1)) ran,
      finish-Left (gid ∷ gids) cfg _ _ x v (leave_groups-Removed (gid ∷ gids) cfg.groups v.distinct)
          ran,
    )
