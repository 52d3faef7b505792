-- ===== src/ShardCfg/Rebalance.antt =====
-- shardkv1/shardcfg/shardcfg.go: analyze, least and Rebalance.
use linearizable_kv_store.Prelude.{
  ℕ, zero, suc, ◌+◌, ◌*◌, Bool, true, false, Option, none, some, List, [], ◌∷◌, ltb, leb, ◌==◌,
  if◌then◌else◌, set, length,
}
use linearizable_kv_store.Prelude.Assoc.{keys, has}
use linearizable_kv_store.ShardCfg.{ShardConfig, n_shards}

-- counts[g]
abbrev pub count : ℕ → List ℕ → ℕ
count g [] = 0
count g (x ∷ xs) = if g == x then suc (count g xs) else count g xs

-- slices.Sort
unfoldable pub insert_sorted : ℕ → List ℕ → List ℕ
insert_sorted x [] = x ∷ []
insert_sorted x (y ∷ ys) = if leb x y then x ∷ y ∷ ys else y ∷ insert_sorted x ys

unfoldable pub sort : List ℕ → List ℕ
unfolding insert_sorted
sort [] = []
sort (x ∷ xs) = insert_sorted x (sort xs)

-- What `analyze` has found so far: a gid or a number of shards that is -1 is `none`.
pub record Load : Type 0 where
  pub most_gid : Option ℕ
  pub most : Option ℕ
  pub least_gid : Option ℕ
  pub least : ℕ

-- n > mn
abbrev pub above : ℕ → Option ℕ → Bool
above n none = true
above n (some m) = ltb m n

-- One round of the loop over the sorted gids.
unfoldable pub weigh : List ℕ → ℕ → Load → Load
weigh shards g l =
    let n = count g shards in
    let less = ltb n l.least in
    let more = above n l.most in
    record {
      least = if less then n else l.least;
      least_gid = if less then some g else l.least_gid;
      most = if more then some n else l.most;
      most_gid = if more then some g else l.most_gid;
    }

unfoldable pub weigh_all : List ℕ → List ℕ → Load → Load
weigh_all shards [] l = l
weigh_all shards (g ∷ gs) l = weigh_all shards gs (weigh shards g l)

unfoldable pub analyze : ShardConfig → Load
analyze c =
    weigh_all c.shards (sort (keys c.groups))
      (record { most_gid = none; most = none; least_gid = none; least = 257 })

unfoldable pub least : ShardConfig → Option ℕ
least c = (analyze c).least_gid

-- c.Shards[s] = gid, where gid is not -1: Rebalance comes here only if there is a group.
abbrev pub give : ℕ → Option ℕ → ShardConfig → ShardConfig
give s none c = c
give s (some gid) c = record c { shards = set c.shards s gid }

-- The loop that assigns the unassigned shards, from shard `s` on. `old` is what the range has left of
-- its copy of the array.
unfoldable pub assign_from : ℕ → List ℕ → ShardConfig → ShardConfig
assign_from s [] c = c
assign_from s (g ∷ old) c =
    assign_from (s + 1) old (if has g c.groups then c else give s (least c) c)

-- The loop that moves one shard from `mg` to `lg`.
unfoldable pub move_one : ℕ → ℕ → List ℕ → List ℕ
move_one mg lg [] = []
move_one mg lg (g ∷ shards) = if g == mg then lg ∷ shards else g ∷ move_one mg lg shards

-- mn < ln+2
abbrev pub even_enough : Load → Bool
even_enough l = elim l.most [ none ↦ true | some mn ↦ ltb mn (l.least + 2) ]

abbrev pub move_between : Option ℕ → Option ℕ → ShardConfig → ShardConfig
move_between (some mg) (some lg) c = record c { shards = move_one mg lg c.shards }
move_between _ _ c = c

-- The loop that moves shards from the most to the least heavily loaded group.
unfoldable pub move_shards : ℕ → ShardConfig → ShardConfig
move_shards zero c = c
move_shards (suc fuel) c = elim (even_enough (analyze c)) [
  | true ↦ c
  | false ↦ move_shards fuel (move_between (analyze c).most_gid (analyze c).least_gid c)
]

-- c.Shards[s] = 0 for every shard
unfoldable pub unassign : List ℕ → List ℕ
unassign [] = []
unassign (g ∷ shards) = 0 ∷ unassign shards

-- One more round than the square of the number of shards.
abbrev pub rounds : ℕ
rounds = n_shards * n_shards + 1

unfoldable pub rebalance : ShardConfig → ShardConfig
rebalance c =
    if ltb (length c.groups) 1
    then record c { shards = unassign c.shards }
    else move_shards rounds (assign_from 0 c.shards c)
