-- ===== src/ShardCfg/Change.antt =====
-- shardkv1/shardcfg/shardcfg.go: Join and Leave, alone and with Rebalance. `none` is log.Fatalf.
use linearizable_kv_store.Prelude.{
  ℕ, ◌+◌, Bool, true, false, ◌||◌, Option, none, some, List, [], ◌∷◌, ◌++◌, String, str_eq,
  if◌then◌else◌,
}
use linearizable_kv_store.Prelude.Panic.{◌>>=◌}
use linearizable_kv_store.Prelude.Assoc.{has, erase}
use linearizable_kv_store.ShardCfg.{ShardConfig}
use linearizable_kv_store.ShardCfg.Rebalance.{rebalance}

among : String → List String → Bool
among s1 [] = false
among s1 (s2 ∷ servers) = str_eq s1 s2 || among s1 servers

-- Two groups with a server in common.
unfoldable pub overlap : List String → List String → Bool
unfolding among
overlap [] servers = false
overlap (s1 ∷ xservers) servers = among s1 servers || overlap xservers servers

-- A server of a new group that is in some group already.
unfoldable pub taken : List (ℕ × List String) → List String → Bool
taken [] servers = false
taken ((xgid, xservers) ∷ groups) servers = overlap xservers servers || taken groups servers

-- The loop over the new groups; with the groups after it, whether it went through. The place where
-- Go's iteration comes upon a new entry of a map is not specified, and here it is the end.
unfoldable pub join_groups :
    List (ℕ × List String) → List (ℕ × List String) → Option (List (ℕ × List String) × Bool)
join_groups [] groups = some (groups, true)
join_groups ((gid, servers) ∷ more) groups =
    let rest = join_groups more (groups ++ (gid, servers) ∷ []) in
    if has gid groups then some (groups, false) else if taken groups servers then none else rest

-- The end of Join and of Leave: the loop over the call's groups has left `groups`, and `through` if
-- it did not return from inside. It is fatal that it found nothing to do.
unfoldable pub finish {ℓ} :
    {A : Type ℓ}
    → List A
    → ShardConfig
    → List (ℕ × List String)
    → Bool
    → Option (ShardConfig × Bool)
finish call cfg groups false = some (record cfg { groups = groups }, false)
finish [] cfg groups true = none
finish (g ∷ gs) cfg groups true = some (record cfg { groups = groups; num = cfg.num + 1 }, true)

unfoldable pub join : List (ℕ × List String) → ShardConfig → Option (ShardConfig × Bool)
join servers cfg = join_groups servers cfg.groups >>= λ looped. finish servers cfg looped.0 looped.1

unfoldable pub leave_groups : List ℕ → List (ℕ × List String) → List (ℕ × List String) × Bool
leave_groups [] groups = (groups, true)
leave_groups (gid ∷ more) groups =
    let rest = leave_groups more (erase gid groups) in
    if has gid groups then rest else (groups, false)

unfoldable pub leave : List ℕ → ShardConfig → Option (ShardConfig × Bool)
leave gids cfg =
    let (groups, through) = leave_groups gids cfg.groups in finish gids cfg groups through

-- Rebalance after a change that went through.
unfoldable pub balance_if : ShardConfig → Bool → ShardConfig × Bool
balance_if cfg true = (rebalance cfg, true)
balance_if cfg false = (cfg, false)

unfoldable pub join_balance : List (ℕ × List String) → ShardConfig → Option (ShardConfig × Bool)
join_balance servers cfg = join servers cfg >>= λ joined. some (balance_if joined.0 joined.1)

unfoldable pub leave_balance : List ℕ → ShardConfig → Option (ShardConfig × Bool)
leave_balance gids cfg = leave gids cfg >>= λ left. some (balance_if left.0 left.1)
