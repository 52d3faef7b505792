-- ===== src/ShardCfg/Stable.antt =====
-- shardkv1/shardcfg/shardcfg.go: Rebalance moves nothing that need not move.
use linearizable_kv_store.Prelude.{
  ℕ, suc, ◌+◌, ◌≤◌, ◌≡◌, refl, ◌∙◌, ap, Bool, true, List, [], ◌∷◌, if◌then◌else◌, arith, some,
}
use linearizable_kv_store.Prelude.Assoc.{mem, keys, has}
use linearizable_kv_store.ShardCfg.{ShardConfig}
use linearizable_kv_store.ShardCfg.Rebalance.{
  Load, analyze, even_enough, assign_from, move_shards, rebalance, rounds, unassign,
}
use linearizable_kv_store.ShardCfg.Check.{all_groups}
use linearizable_kv_store.ShardCfg.Extremes.{Extremes, analyze-Extremes}
use linearizable_kv_store.ShardCfg.Balance.{IsValid, Balanced, rebalance-Balanced, at_least_one}

assign_from_same :
    (s : ℕ) (old : List ℕ) (c : ShardConfig)
    → all_groups old c.groups ≡ true
    → assign_from s old c ≡ c
unfolding assign_from all_groups
assign_from_same s [] c h = refl
assign_from_same s (g ∷ old) c h =
    let here : has g c.groups ≡ true = ground arith in
    rw here (assign_from_same (s + 1) old c (ground arith))

le→even_enough : (l : Load) (mn : ℕ) → l.most ≡ some mn → mn ≤ l.least + 1 → even_enough l ≡ true
le→even_enough l mn e h = ground arith

move_shards_stop :
    (fuel : ℕ) (c : ShardConfig) → even_enough (analyze c) ≡ true → move_shards (suc fuel) c ≡ c
unfolding move_shards
move_shards_stop fuel c p = rw (p, move_shards) refl

-- A configuration with a group that is balanced already is left as it is.
pub rebalance_stable :
    (cfg : ShardConfig) (k : ℕ) → has k cfg.groups ≡ true → Balanced cfg cfg → rebalance cfg ≡ cfg
unfolding rebalance
rebalance_stable cfg k some_group b =
    ap
      (λ (b : Bool).
        if b
        then record cfg { shards = unassign cfg.shards }
        else move_shards rounds (assign_from 0 cfg.shards cfg))
      (at_least_one k cfg.groups some_group)
    ∙ ap (move_shards rounds) (assign_from_same 0 cfg.shards cfg b.assigned)
    ∙ move_shards_stop 144 cfg stop
  where
    e : Extremes cfg.shards (λ x. mem x (keys cfg.groups)) (analyze cfg)
    e = analyze-Extremes cfg k (rw b.twelve (omega arith)) some_group

    stop : even_enough (analyze cfg) ≡ true
    stop =
        le→even_enough (analyze cfg) e.mn e.most
          (omega (arith, b.even e.mg e.mg_seen, b.even e.lg e.lg_seen, e.mn_count, e.ln_count))

-- So a second Rebalance changes nothing.
pub rebalance-rebalance :
    (cfg : ShardConfig) (k : ℕ)
    → IsValid cfg
    → has k cfg.groups ≡ true
    → rebalance (rebalance cfg) ≡ rebalance cfg
rebalance-rebalance cfg k v some_group =
    rebalance_stable (rebalance cfg) k (rw b.same_groups some_group) (record {
      same_num = refl;
      same_groups = refl;
      twelve = b.twelve;
      assigned = b.assigned;
      low = b.low;
      even = b.even;
    })
  where
    b : Balanced cfg (rebalance cfg)
    b = rebalance-Balanced cfg k v some_group
