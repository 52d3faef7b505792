-- ===== src/ShardCfg/Accepted.antt =====
-- shardkv1/shardcfg/shardcfg.go: CheckConfig accepts what Rebalance leaves.
use linearizable_kv_store.Prelude.{
  ℕ, suc, ◌+◌, ◌≤◌, ◌≡◌, refl, ◌∙◌, ap, true, List, [], ◌∷◌, ==_iff, arith, length, String,
}
use linearizable_kv_store.Prelude.Assoc.{mem, keys, has}
use linearizable_kv_store.ShardCfg.{ShardConfig}
use linearizable_kv_store.ShardCfg.Rebalance.{count, rebalance, unassign}
use linearizable_kv_store.ShardCfg.Count.{count-le}
use linearizable_kv_store.ShardCfg.Check.{all_groups, extremes, check_config}
use linearizable_kv_store.ShardCfg.Balance.{IsValid, Balanced, rebalance-Balanced}

-- The loop of CheckConfig stays between the bounds that hold for every group.
extremes_bounds :
    (shards gs : List ℕ) (max min low : ℕ)
    → ((g : ℕ) → mem g gs ≡ true → (low ≤ count g shards) × (count g shards ≤ low + 1))
    → max ≤ low + 1
    → low ≤ min
    → ((extremes shards gs max min).0 ≤ low + 1) × (low ≤ (extremes shards gs max min).1)
unfolding extremes
extremes_bounds shards [] max min low even p q = (p, q)
extremes_bounds shards (g ∷ gs) max min low even p q =
    let here = even g (ground arith) in
    extremes_bounds shards gs _ _ low (λ x h. even x (ground arith)) (ground arith) (ground arith)

all_groups-subset :
    (gs : List ℕ) (groups : List (ℕ × List String))
    → ((g : ℕ) → mem g gs ≡ true → has g groups ≡ true)
    → all_groups gs groups ≡ true
unfolding all_groups
all_groups-subset [] groups h = refl
all_groups-subset (g ∷ gs) groups h =
    let here = h g (ground arith) in
    let rest = all_groups-subset gs groups (λ x m. h x (ground arith)) in rw (here, rest) refl

pub all_groups-keys : (groups : List (ℕ × List String)) → all_groups (keys groups) groups ≡ true
all_groups-keys groups = all_groups-subset (keys groups) groups (λ g h. h)

pub Balanced-check_config :
    (cfg r : ShardConfig) (gs : List ℕ) (k : ℕ)
    → has k r.groups ≡ true
    → Balanced cfg r
    → length r.groups ≡ length gs
    → all_groups gs r.groups ≡ true
    → check_config gs r ≡ true
unfolding check_config
Balanced-check_config cfg r gs k some_group b same all =
    rw ((==_iff (length r.groups) (length gs)).1 same, all, b.assigned) (ground (arith, bounds))
  where
    few : b.low ≤ 257
    few = omega (arith, b.even k some_group, count-le k r.shards, b.twelve)

    bounds :
        ((extremes r.shards (keys r.groups) 0 257).0 ≤ b.low + 1)
        × (b.low ≤ (extremes r.shards (keys r.groups) 0 257).1)
    bounds = extremes_bounds r.shards (keys r.groups) 0 257 b.low b.even (omega arith) few

unassigned-check_config :
    (num : ℕ) (shards : List ℕ)
    → check_config [] (rebalance (record { num = num; shards = shards; groups = [] })) ≡ true
unfolding check_config rebalance extremes all_groups
unassigned-check_config num shards = refl

all_groups-head :
    (g : ℕ) (gs : List ℕ) (groups : List (ℕ × List String))
    → all_groups (g ∷ gs) groups ≡ true
    → has g groups ≡ true
unfolding all_groups
all_groups-head g gs groups h = ground arith

-- CheckConfig accepts what Rebalance leaves, with any list of as many gids as there are groups that
-- are all groups, in a configuration with groups or without.
pub check_config-rebalance :
    (cfg : ShardConfig) (gs : List ℕ)
    → IsValid cfg
    → length cfg.groups ≡ length gs
    → all_groups gs cfg.groups ≡ true
    → check_config gs (rebalance cfg) ≡ true
check_config-rebalance cfg [] v same all = go cfg.groups same
  where
    go :
        (groups : List (ℕ × List String))
        → length groups ≡ 0
        → check_config [] (rebalance (record cfg { groups = groups })) ≡ true
    go [] e = unassigned-check_config cfg.num cfg.shards
    go (g ∷ groups) e = absurd (omega arith)
check_config-rebalance cfg (g ∷ gs) v same all =
    let b = rebalance-Balanced cfg g v (all_groups-head g gs cfg.groups all) in
    Balanced-check_config cfg (rebalance cfg) (g ∷ gs) g
      (rw b.same_groups (all_groups-head g gs cfg.groups all)) b (ap length b.same_groups ∙ same)
      (rw b.same_groups all)

length-unassign : (shards : List ℕ) → length (unassign shards) ≡ length shards
unfolding unassign
length-unassign [] = refl
length-unassign (g ∷ shards) = ap suc (length-unassign shards)

-- The same number and groups, twelve shards, and a configuration that CheckConfig accepts.
pub record Settled (cfg r : ShardConfig) : Type 0 where
  pub same_num : r.num ≡ cfg.num
  pub same_groups : r.groups ≡ cfg.groups
  pub valid : IsValid r
  pub accepted : check_config (keys r.groups) r ≡ true

length-keys : (groups : List (ℕ × List String)) → length groups ≡ length (keys groups)
length-keys [] = refl
length-keys (g ∷ groups) = ap suc (length-keys groups)

settled :
    (num : ℕ) (shards : List ℕ) (groups : List (ℕ × List String))
    → IsValid (record { num = num; shards = shards; groups = groups })
    → Settled
        (record { num = num; shards = shards; groups = groups })
        (rebalance (record { num = num; shards = shards; groups = groups }))
unfolding rebalance
settled num shards [] v = record {
  same_num = refl;
  same_groups = refl;
  valid = record { twelve = length-unassign shards ∙ v.twelve; distinct = tt };
  accepted = unassigned-check_config num shards;
}
settled num shards ((k, servers) ∷ groups) v = record {
  same_num = b.same_num;
  same_groups = b.same_groups;
  valid = record { twelve = b.twelve; distinct = rw b.same_groups v.distinct };
  accepted =
      Balanced-check_config cfg (rebalance cfg) (keys (rebalance cfg).groups) k
        (rw b.same_groups first) b (length-keys (rebalance cfg).groups)
        (all_groups-keys (rebalance cfg).groups);
}
  where
    cfg : ShardConfig
    cfg = record { num = num; shards = shards; groups = (k, servers) ∷ groups }

    first : has k ((k, servers) ∷ groups) ≡ true
    first = rw ((==_iff k k).1 refl) refl

    b : Balanced cfg (rebalance cfg)
    b = rebalance-Balanced cfg k v first

pub rebalance-Settled : (cfg : ShardConfig) → IsValid cfg → Settled cfg (rebalance cfg)
rebalance-Settled cfg v = settled cfg.num cfg.shards cfg.groups v
