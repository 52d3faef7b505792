-- ===== src/ShardCfg.antt =====
-- shardkv1/shardcfg/shardcfg.go: an assignment of shards to groups, and its changes. A group id is a
-- number, 0 for none; a map is a list of its entries in the order in which Go iterates over it.
pub mod Rebalance
pub mod Change
pub mod Check
mod Sum
mod Count
mod Extremes
pub mod Measure
pub mod Balance
pub mod Accepted
pub mod Grow
pub mod Shrink
mod Sorted
pub mod Order
pub mod Route
pub mod Stable
mod Tests
use linearizable_kv_store.Prelude.{
  ℕ, zero, suc, ◌+◌, ◌*◌, ◌%◌, Bool, true, false, Option, none, some, List, [], ◌∷◌, String, length,
  get_elem?, ◌==◌, if◌then◌else◌,
}
use Prim.Native.Nat.{bit_xor}
use linearizable_kv_store.Prelude.Assoc.{lookup}

abbrev pub n_shards : ℕ
n_shards = 12

-- fnv.New32a, by its definition: a 32-bit hash of bytes.
fnv32a : ℕ → List ℕ → ℕ
fnv32a h [] = h
fnv32a h (b ∷ bytes) = fnv32a (bit_xor h b * 16777619 % 4294967296) bytes

-- The key is its bytes.
unfoldable pub key2shard : List ℕ → ℕ
unfolding fnv32a
key2shard key = fnv32a 2166136261 key % n_shards

pub record ShardConfig : Type 0 where
  pub num : ℕ
  pub shards : List ℕ
  pub groups : List (ℕ × List String)

unfoldable pub make_shard_config : ShardConfig
make_shard_config = record {
  num = 0;
  shards = 0 ∷ 0 ∷ 0 ∷ 0 ∷ 0 ∷ 0 ∷ 0 ∷ 0 ∷ 0 ∷ 0 ∷ 0 ∷ 0 ∷ [];
  groups = [];
}

-- The copy shares nothing with the original; as a value it is the same.
copy_groups : List (ℕ × List String) → List (ℕ × List String)
copy_groups [] = []
copy_groups ((k, srvs) ∷ groups) = (k, srvs) ∷ copy_groups groups

unfoldable pub copy : ShardConfig → ShardConfig
unfolding copy_groups
copy cfg = record { num = cfg.num; shards = cfg.shards; groups = copy_groups cfg.groups }

-- The group of a shard, and its servers if there is such a group; `none` is an index out of range.
unfoldable pub gid_servers : ℕ → ShardConfig → Option (ℕ × Option (List String))
gid_servers sh cfg = elim (get_elem? cfg.shards sh) [
  | none ↦ none
  | some gid ↦ some (gid, lookup gid cfg.groups)
]

member_of : ℕ → List ℕ → Bool
member_of gid [] = false
member_of gid (g ∷ shards) = if g == gid then true else member_of gid shards

unfoldable pub is_member : ℕ → ShardConfig → Bool
unfolding member_of
is_member gid cfg = member_of gid cfg.shards
