-- ===== src/ShardCfg/Balance.antt =====
-- shardkv1/shardcfg/shardcfg.go: what Rebalance leaves.
use linearizable_kv_store.Prelude.{
  ℕ, zero, suc, ◌+◌, ◌≤◌, ◌<◌, ◌≡◌, refl, sym, ◌∙◌, ap, subst, true, false, List, [], ◌∷◌, ◌++◌,
  arith, Bool-cases, inl, inr, length, ltb, some, String, set, append_assoc, length-append,
  append-nil, length-set,
}
use linearizable_kv_store.Prelude.Assoc.{Distinct, keys, has}
use native.Mathlib.Nat.{le_trans}
use linearizable_kv_store.ShardCfg.{ShardConfig, n_shards}
use linearizable_kv_store.ShardCfg.Rebalance.{
  count, Load, move_one, analyze, even_enough, rounds, move_shards, assign_from, least, rebalance,
}
use linearizable_kv_store.ShardCfg.Check.{all_groups}
use linearizable_kv_store.ShardCfg.Count.{length-move_one}
use linearizable_kv_store.ShardCfg.Extremes.{analyze-Extremes}
use linearizable_kv_store.ShardCfg.Measure.{measure, measure-move_one, measure-rounds}

-- Twelve shards, and a map with each key once.
pub record IsValid (cfg : ShardConfig) : Type 0 where
  pub twelve : length cfg.shards ≡ n_shards
  pub distinct : Distinct (keys cfg.groups)

-- The same number and groups; every shard has a group, and the groups have `low` or `low + 1` each.
pub record Balanced (cfg r : ShardConfig) : Type 0 where
  pub same_num : r.num ≡ cfg.num
  pub same_groups : r.groups ≡ cfg.groups
  pub twelve : length r.shards ≡ n_shards
  pub assigned : all_groups r.shards r.groups ≡ true
  pub low : ℕ
  pub even :
      (g : ℕ) → has g r.groups ≡ true → (low ≤ count g r.shards) × (count g r.shards ≤ low + 1)

all_groups-append :
    (xs ys : List ℕ) (groups : List (ℕ × List String))
    → all_groups xs groups ≡ true
    → all_groups ys groups ≡ true
    → all_groups (xs ++ ys) groups ≡ true
unfolding all_groups
all_groups-append [] ys groups p q = q
all_groups-append (x ∷ xs) ys groups p q = ground (arith, all_groups-append xs ys groups)

all_groups-move_one :
    (mg lg : ℕ) (shards : List ℕ) (groups : List (ℕ × List String))
    → has lg groups ≡ true
    → all_groups shards groups ≡ true
    → all_groups (move_one mg lg shards) groups ≡ true
unfolding all_groups move_one
all_groups-move_one mg lg [] groups l p = refl
all_groups-move_one mg lg (x ∷ xs) groups l p = ground (arith, all_groups-move_one mg lg xs groups)

set-middle :
    (pre : List ℕ) (g v : ℕ) (old : List ℕ)
    → set (pre ++ g ∷ old) (length pre) v ≡ (pre ++ v ∷ []) ++ old
set-middle [] g v old = refl
set-middle (x ∷ pre) g v old = ap (λ l. x ∷ l) (set-middle pre g v old)

-- What the loop that assigns the shards leaves.
record Assigned (c r : ShardConfig) : Type 0 where
  same_num : r.num ≡ c.num
  same_groups : r.groups ≡ c.groups
  same_length : length r.shards ≡ length c.shards
  all_assigned : all_groups r.shards c.groups ≡ true

none_assigned : (groups : List (ℕ × List String)) → all_groups [] groups ≡ true
unfolding all_groups
none_assigned groups = refl

all_groups-single :
    (g : ℕ) (groups : List (ℕ × List String))
    → has g groups ≡ true
    → all_groups (g ∷ []) groups ≡ true
unfolding all_groups
all_groups-single g groups h = rw h refl

length-snoc : (pre : List ℕ) (g s : ℕ) → s ≡ length pre → s + 1 ≡ length (pre ++ g ∷ [])
length-snoc pre g s at = omega (arith, length-append pre (g ∷ []))

assign_from-Assigned :
    (old pre : List ℕ) (s : ℕ) (c : ShardConfig) (k : ℕ)
    → has k c.groups ≡ true
    → length c.shards < 257
    → s ≡ length pre
    → c.shards ≡ pre ++ old
    → all_groups pre c.groups ≡ true
    → Assigned c (assign_from s old c)
unfolding assign_from least
assign_from-Assigned [] pre s c k some_group short at split done = record {
  same_num = refl;
  same_groups = refl;
  same_length = refl;
  all_assigned = subst (λ l. all_groups l c.groups ≡ true) (sym (split ∙ append-nil pre)) done;
}
assign_from-Assigned (g ∷ old) pre s c k some_group short at split done =
    elim (Bool-cases (has g c.groups)) [
      | inl p ↦ rw p (
          assign_from-Assigned old (pre ++ g ∷ []) (s + 1) c k some_group short
            (length-snoc pre g s at) (split ∙ sym (append_assoc pre (g ∷ []) old))
            (all_groups-append pre (g ∷ []) c.groups done (all_groups-single g c.groups p)))
      | inr p ↦
          let e = analyze-Extremes c k short some_group in
          let c1 : ShardConfig = record c { shards = set c.shards s e.lg } in
          let kept : length c1.shards ≡ length c.shards = length-set c.shards s e.lg in
          let a : Assigned c1 (assign_from (s + 1) old c1) =
            assign_from-Assigned old (pre ++ e.lg ∷ []) (s + 1) c1 k some_group (rw kept short)
              (length-snoc pre e.lg s at)
              (ap (λ l. set l s e.lg) split
                ∙ ap (λ i. set (pre ++ g ∷ old) i e.lg) at
                ∙ set-middle pre g e.lg old)
              (all_groups-append pre (e.lg ∷ []) c.groups done
                (all_groups-single e.lg c.groups e.lg_seen)) in
          rw (p, e.least_gid)
            (record {
              same_num = a.same_num;
              same_groups = a.same_groups;
              same_length = a.same_length ∙ kept;
              all_assigned = a.all_assigned;
            })
    ]

even_enough→le : (l : Load) (mn : ℕ) → l.most ≡ some mn → even_enough l ≡ true → mn ≤ l.least + 1
even_enough→le l mn e h = ground arith

uneven→le : (l : Load) (mn : ℕ) → l.most ≡ some mn → even_enough l ≡ false → l.least + 2 ≤ mn
uneven→le l mn e h = ground arith

wide : {cm mn cl ln : ℕ} → cm ≡ mn → cl ≡ ln → ln + 2 ≤ mn → cl + 2 ≤ cm
wide p q h = omega arith

smaller : {a b c : ℕ} → a < b → b < suc c → a < c
smaller p q = omega arith

move_shards-Balanced :
    (fuel : ℕ) (c : ShardConfig) (k : ℕ)
    → measure (keys c.groups) c.shards < fuel
    → has k c.groups ≡ true
    → IsValid c
    → all_groups c.shards c.groups ≡ true
    → Balanced c (move_shards fuel c)
unfolding move_shards
move_shards-Balanced zero c k enough some_group v all = absurd (omega arith)
move_shards-Balanced (suc fuel) c k enough some_group v all =
    let short : length c.shards < 257 = rw v.twelve (omega arith) in
    let e = analyze-Extremes c k short some_group in
    elim (Bool-cases (even_enough (analyze c))) [
      | inl p ↦
          rw (p, move_shards)
            (record {
              same_num = refl;
              same_groups = refl;
              twelve = v.twelve;
              assigned = all;
              low = (analyze c).least;
              even = λ g h.
                  (e.lower g h, le_trans (e.upper g h) (even_enough→le (analyze c) e.mn e.most p));
            })
      | inr p ↦
          let c1 : ShardConfig = record c { shards = move_one e.mg e.lg c.shards } in
          let gap = wide e.mn_count e.ln_count (uneven→le (analyze c) e.mn e.most p) in
          let b : Balanced c1 (move_shards fuel c1) =
            move_shards-Balanced fuel c1 k
              (smaller
                (measure-move_one e.mg e.lg (keys c.groups) c.shards v.distinct e.mg_seen e.lg_seen
                  gap)
                enough)
              some_group
              (record {
                twelve = length-move_one e.mg e.lg c.shards ∙ v.twelve;
                distinct = v.distinct;
              })
              (all_groups-move_one e.mg e.lg c.shards c.groups e.lg_seen all) in
          rw (p, e.most_gid, e.least_gid, move_shards)
            (record {
              same_num = b.same_num;
              same_groups = b.same_groups;
              twelve = b.twelve;
              assigned = b.assigned;
              low = b.low;
              even = b.even;
            })
    ]

pub at_least_one :
    (k : ℕ) (groups : List (ℕ × List String)) → has k groups ≡ true → ltb (length groups) 1 ≡ false
at_least_one k [] h = absurd (ground arith)
at_least_one k (g ∷ groups) h = ground arith

-- Rebalance of a configuration with a group ends its loop by its own test and keeps the number and
-- the groups; every shard is assigned to a group, and any two groups have the same number of shards
-- or differ by one.
pub rebalance-Balanced :
    (cfg : ShardConfig) (k : ℕ)
    → IsValid cfg
    → has k cfg.groups ≡ true
    → Balanced cfg (rebalance cfg)
unfolding rebalance
rebalance-Balanced cfg k v some_group = rw (at_least_one k cfg.groups some_group) (record {
  same_num = b.same_num ∙ a.same_num;
  same_groups = b.same_groups ∙ a.same_groups;
  twelve = b.twelve;
  assigned = b.assigned;
  low = b.low;
  even = b.even;
})
  where
    a : Assigned cfg (assign_from 0 cfg.shards cfg)
    a =
        assign_from-Assigned cfg.shards [] 0 cfg k some_group (rw v.twelve (omega arith)) refl refl
          (none_assigned cfg.groups)

    v1 : IsValid (assign_from 0 cfg.shards cfg)
    v1 = record { twelve = a.same_length ∙ v.twelve; distinct = rw a.same_groups v.distinct }

    b : Balanced (assign_from 0 cfg.shards cfg) (move_shards rounds (assign_from 0 cfg.shards cfg))
    b =
        move_shards-Balanced rounds (assign_from 0 cfg.shards cfg) k
          (measure-rounds _ _ v1.distinct v1.twelve) (rw a.same_groups some_group) v1
          (rw a.same_groups a.all_assigned)
