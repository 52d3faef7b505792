-- ===== src/ShardCfg/Check.antt =====
-- shardkv1/shardcfg/shardcfg.go: CheckConfig. `false` is a failure of the test.
use linearizable_kv_store.Prelude.{
  ℕ, ◌+◌, Bool, true, ◌&&◌, List, [], ◌∷◌, String, length, ltb, leb, ◌==◌, if◌then◌else◌,
}
use linearizable_kv_store.Prelude.Assoc.{keys, has}
use linearizable_kv_store.ShardCfg.{ShardConfig}
use linearizable_kv_store.ShardCfg.Rebalance.{count}

-- Every one of these gids is a group.
unfoldable pub all_groups : List ℕ → List (ℕ × List String) → Bool
all_groups [] groups = true
all_groups (g ∷ gs) groups = has g groups && all_groups gs groups

-- The loop for the most and the fewest shards of a group.
unfoldable pub extremes : List ℕ → List ℕ → ℕ → ℕ → ℕ × ℕ
extremes shards [] max min = (max, min)
extremes shards (g ∷ gs) max min =
    let n = count g shards in
    extremes shards gs (if ltb max n then n else max) (if ltb n min then n else min)

unfoldable pub check_config : List ℕ → ShardConfig → Bool
check_config groups cfg =
    length cfg.groups == length groups
    && all_groups groups cfg.groups
    && (if ltb 0 (length groups) then all_groups cfg.shards cfg.groups else true)
    && (let (max, min) = extremes cfg.shards (keys cfg.groups) 0 257 in leb max (min + 1))
