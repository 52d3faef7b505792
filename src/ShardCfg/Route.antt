-- ===== src/ShardCfg/Route.antt =====
-- shardkv1/shardcfg/shardcfg.go: every key of a balanced configuration has a group that serves it.
use linearizable_kv_store.Prelude.{
  ℕ, suc, zero, ◌<◌, ◌≡◌, sym, ◌∙◌, ap, true, List, [], ◌∷◌, arith, String, some, get_elem?,
  get_elem?-some,
}
use linearizable_kv_store.Prelude.Assoc.{has, lookup, has-lookup}
use linearizable_kv_store.ShardCfg.{
  ShardConfig, key2shard, gid_servers, is_member, n_shards, member_of,
}
use linearizable_kv_store.ShardCfg.Rebalance.{rebalance}
use linearizable_kv_store.ShardCfg.Check.{all_groups}
use linearizable_kv_store.ShardCfg.Balance.{IsValid, rebalance-Balanced}

all_groups-get :
    (shards : List ℕ) (groups : List (ℕ × List String)) (i g : ℕ)
    → all_groups shards groups ≡ true
    → get_elem? shards i ≡ some g
    → has g groups ≡ true
unfolding all_groups
all_groups-get [] groups i g h e = absurd (ground arith)
all_groups-get (x ∷ shards) groups zero g h e = ground arith
all_groups-get (x ∷ shards) groups (suc i) g h e = all_groups-get shards groups i g (ground arith) e

member_of-get :
    (shards : List ℕ) (i g : ℕ) → get_elem? shards i ≡ some g → member_of g shards ≡ true
unfolding member_of
member_of-get [] i g e = absurd (ground arith)
member_of-get (x ∷ shards) zero g e = ground arith
member_of-get (x ∷ shards) (suc i) g e = ground (arith, member_of-get shards i g e)

-- Key2Shard stays inside the array of shards.
pub key2shard_lt : (key : List ℕ) → key2shard key < n_shards
unfolding key2shard
key2shard_lt key = omega arith

gid_servers_found :
    (sh : ℕ) (cfg : ShardConfig) (gid : ℕ) (servers : List String)
    → get_elem? cfg.shards sh ≡ some gid
    → lookup gid cfg.groups ≡ some servers
    → gid_servers sh cfg ≡ some (gid, some servers)
unfolding gid_servers
gid_servers_found sh cfg gid servers e f = ground arith

-- After Rebalance of a configuration with a group, GidServers of the shard of any key names a group
-- of the configuration with its servers, and IsMember holds of that group.
pub key-route :
    (cfg : ShardConfig) (k : ℕ) (key : List ℕ)
    → IsValid cfg
    → has k cfg.groups ≡ true
    → (gid : ℕ) × (servers : List String) × (gid_servers (key2shard key) (rebalance cfg)
        ≡ some (gid, some servers))
      × (lookup gid cfg.groups ≡ some servers)
      × (is_member gid (rebalance cfg) ≡ true)
unfolding is_member
key-route cfg k key v some_group =
    let b = rebalance-Balanced cfg k v some_group in
    let (gid, at) =
      get_elem?-some (rebalance cfg).shards (key2shard key) (rw b.twelve (key2shard_lt key)) in
    let (servers, found) = has-lookup gid (rebalance cfg).groups (
      all_groups-get (rebalance cfg).shards (rebalance cfg).groups (key2shard key) gid b.assigned
        at) in
    (
      gid,
      servers,
      gid_servers_found (key2shard key) (rebalance cfg) gid servers at found,
      sym (ap (lookup gid) b.same_groups) ∙ found,
      member_of-get (rebalance cfg).shards (key2shard key) gid at,
    )
