-- ===== src/ShardCfg/Tests.antt =====
-- shardkv1/shardcfg/shardcfg.go: two groups that join, and one that leaves, with the theorems there.
use linearizable_kv_store.Prelude.{
  ℕ, Bool, ◌≤◌, ◌≡◌, refl, Bool, true, List, [], ◌∷◌, String, some, arith,
}
use linearizable_kv_store.Prelude.Assoc.{has, lookup}
use linearizable_kv_store.ShardCfg.{
  ShardConfig, make_shard_config, key2shard, gid_servers, is_member,
}
use linearizable_kv_store.ShardCfg.Rebalance.{
  count, sort, insert_sorted, weigh, weigh_all, analyze, least, assign_from, move_one, move_shards,
  rebalance,
}
use linearizable_kv_store.ShardCfg.Change.{
  join_groups, join, join_balance, leave_groups, leave, leave_balance, finish, balance_if, taken,
  overlap,
}
use linearizable_kv_store.ShardCfg.Check.{all_groups}
use linearizable_kv_store.ShardCfg.Balance.{IsValid, Balanced, rebalance-Balanced}
use linearizable_kv_store.ShardCfg.Grow.{Joined, join_balance-Joined}
use linearizable_kv_store.ShardCfg.Shrink.{Left, leave_balance-Left}
use linearizable_kv_store.ShardCfg.Order.{SameKeys, rebalance_order}
use linearizable_kv_store.ShardCfg.Route.{key-route}

abbrev two : List (ℕ × List String)
two = (1, "a" ∷ []) ∷ (2, "b" ∷ []) ∷ []

abbrev nobody : List ℕ
nobody = 0 ∷ 0 ∷ 0 ∷ 0 ∷ 0 ∷ 0 ∷ 0 ∷ 0 ∷ 0 ∷ 0 ∷ 0 ∷ 0 ∷ []

abbrev by_turns : List ℕ
by_turns = 1 ∷ 2 ∷ 1 ∷ 2 ∷ 1 ∷ 2 ∷ 1 ∷ 2 ∷ 1 ∷ 2 ∷ 1 ∷ 2 ∷ []

abbrev all_ones : List ℕ
all_ones = 1 ∷ 1 ∷ 1 ∷ 1 ∷ 1 ∷ 1 ∷ 1 ∷ 1 ∷ 1 ∷ 1 ∷ 1 ∷ 1 ∷ []

abbrev unassigned : ShardConfig
unassigned = record { num = 0; shards = nobody; groups = two }

abbrev joined : ShardConfig
joined = record { num = 1; shards = by_turns; groups = two }

-- Group 2 has just joined, and group 1 has every shard.
abbrev lopsided : ShardConfig
lopsided = record { num = 2; shards = all_ones; groups = two }

joins : join_balance two make_shard_config ≡ some (joined, true)
unfolding make_shard_config join_balance join join_groups finish balance_if taken rebalance
    move_shards assign_from least analyze weigh_all weigh sort insert_sorted overlap
joins = refl

evens_out : (rebalance lopsided).shards ≡ 2 ∷ 2 ∷ 2 ∷ 2 ∷ 2 ∷ 2 ∷ 1 ∷ 1 ∷ 1 ∷ 1 ∷ 1 ∷ 1 ∷ []
unfolding rebalance move_shards assign_from least analyze weigh_all weigh sort insert_sorted
    move_one
evens_out = refl

make_shard_config-IsValid : IsValid make_shard_config
unfolding make_shard_config
make_shard_config-IsValid = record { twelve = refl; distinct = tt }

joined-IsValid : IsValid joined
joined-IsValid = record { twelve = refl; distinct = (refl, (refl, tt)) }

lopsided-IsValid : IsValid lopsided
lopsided-IsValid = record { twelve = refl; distinct = (refl, (refl, tt)) }

join_balance-Joined_example : Joined two make_shard_config joined true
join_balance-Joined_example =
    join_balance-Joined two make_shard_config make_shard_config-IsValid joins

abbrev one_left : ShardConfig
one_left = record { num = 2; shards = all_ones; groups = (1, "a" ∷ []) ∷ [] }

leaves : leave_balance (2 ∷ []) joined ≡ some (one_left, true)
unfolding leave_balance leave leave_groups finish balance_if rebalance move_shards assign_from least
    analyze weigh_all weigh sort insert_sorted
leaves = refl

leave_balance-Left_example :
    (r : ShardConfig) × (b : Bool) × (leave_balance (2 ∷ []) joined ≡ some (r, b))
    × Left (2 ∷ []) joined r b
leave_balance-Left_example = leave_balance-Left 2 [] joined joined-IsValid

rebalance-Balanced_example : Balanced lopsided (rebalance lopsided)
rebalance-Balanced_example = rebalance-Balanced lopsided 1 lopsided-IsValid refl

-- The same groups in another order.
abbrev two' : List (ℕ × List String)
two' = (2, "b" ∷ []) ∷ (1, "a" ∷ []) ∷ []

two-has : (k : ℕ) → has k two ≡ has k two'
two-has k = ground arith

two-SameKeys : SameKeys two two'
two-SameKeys = record {
  same = two-has;
  distinct = (refl, (refl, tt));
  distinct' = (refl, (refl, tt));
}

rebalance_order_example :
    (rebalance (record { num = 2; shards = all_ones; groups = two })).shards
    ≡ (rebalance (record { num = 2; shards = all_ones; groups = two' })).shards
rebalance_order_example = rebalance_order 2 all_ones two two' two-SameKeys

-- The key "x".
key-route_example :
    (gid : ℕ) × (servers : List String) × (gid_servers (key2shard (120 ∷ [])) (rebalance lopsided)
      ≡ some (gid, some servers))
    × (lookup gid two ≡ some servers)
    × (is_member gid (rebalance lopsided) ≡ true)
key-route_example = key-route lopsided 1 (120 ∷ []) lopsided-IsValid refl

joined_even : (g : ℕ) → has g two ≡ true → (6 ≤ count g by_turns) × (count g by_turns ≤ 7)
joined_even g h = ground arith

joined-Balanced : Balanced joined joined
unfolding all_groups
joined-Balanced = record {
  same_num = refl;
  same_groups = refl;
  twelve = refl;
  assigned = refl;
  low = 6;
  even = joined_even;
}
