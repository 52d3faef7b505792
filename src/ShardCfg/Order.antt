-- ===== src/ShardCfg/Order.antt =====
-- shardkv1/shardcfg/shardcfg.go: Rebalance gives the same assignment whatever the order in which Go
-- iterates over the groups.
use linearizable_kv_store.Prelude.{
  ℕ, zero, suc, ◌+◌, ◌≡◌, refl, sym, ◌∙◌, ap, Bool, true, false, List, [], ◌∷◌, if◌then◌else◌,
  arith, Bool-cases, inl, inr, Option, set, String, some, none, length, ltb, ==_iff,
}
use mathlib.Core.Bool.{false≢true}
use linearizable_kv_store.Prelude.Assoc.{Distinct, keys, has}
use linearizable_kv_store.ShardCfg.{ShardConfig}
use linearizable_kv_store.ShardCfg.Rebalance.{
  Load, analyze, least, give, assign_from, even_enough, move_between, move_shards, rebalance,
  rounds, move_one,
}
use linearizable_kv_store.ShardCfg.Sorted.{sort-eq_of_mem}

abbrev Groups : Type 0
Groups = List (ℕ × List String)

-- Two maps with the same keys, each once, in some order.
pub record SameKeys (m m' : Groups) : Type 0 where
  pub same : (k : ℕ) → has k m ≡ has k m'
  pub distinct : Distinct (keys m)
  pub distinct' : Distinct (keys m')

module _ (m m' : Groups) (same : SameKeys m m') where
  abbrev over : ℕ → List ℕ → ShardConfig
  over n shards = record { num = n; shards = shards; groups = m }

  abbrev over' : ℕ → List ℕ → ShardConfig
  over' n shards = record { num = n; shards = shards; groups = m' }

  analyze-over : (n : ℕ) (shards : List ℕ) → analyze (over n shards) ≡ analyze (over' n shards)
  unfolding analyze
  analyze-over n shards =
      rw (sort-eq_of_mem (keys m) (keys m') same.distinct same.distinct' same.same) refl

  assign_from-over :
      (s n : ℕ) (old shards : List ℕ)
      → (assign_from s old (over n shards)).shards ≡ (assign_from s old (over' n shards)).shards
  unfolding assign_from least
  assign_from-over s n [] shards = refl
  assign_from-over s n (g ∷ old) shards =
      step (assign_from-over (s + 1) n old) (has g m) (analyze (over n shards)).least_gid
      ∙ ap (λ b. right b (analyze (over n shards)).least_gid) (same.same g)
      ∙ ap (λ l. right (has g m') l.least_gid) (analyze-over n shards)
    where
      right : Bool → Option ℕ → List ℕ
      right b o =
          (assign_from (s + 1) old (if b then over' n shards else give s o (over' n shards))).shards

      step :
          ((sh : List ℕ)
            → (assign_from (s + 1) old (over n sh)).shards
              ≡ (assign_from (s + 1) old (over' n sh)).shards)
          → (b : Bool) (o : Option ℕ)
          → (assign_from (s + 1) old (if b then over n shards else give s o (over n shards))).shards
            ≡ right b o
      step ih true o = ih shards
      step ih false none = ih shards
      step ih false (some v) = ih (set shards s v)

  round' : ℕ → ℕ → List ℕ → Load → List ℕ
  round' fuel n shards l =
      (elim (even_enough l) as (λ x. ShardConfig) [
        | true ↦ over' n shards
        | false ↦ move_shards fuel (move_between l.most_gid l.least_gid (over' n shards))
      ]).shards

  move_shards-over :
      (fuel n : ℕ) (shards : List ℕ)
      → (move_shards fuel (over n shards)).shards ≡ (move_shards fuel (over' n shards)).shards
  unfolding move_shards round'
  move_shards-over zero n shards = refl
  move_shards-over (suc fuel) n shards =
      step (move_shards-over fuel n) (even_enough l) l.most_gid l.least_gid
      ∙ ap (round' fuel n shards) (analyze-over n shards)
    where
      l : Load
      l = analyze (over n shards)

      step :
          ((sh : List ℕ)
            → (move_shards fuel (over n sh)).shards ≡ (move_shards fuel (over' n sh)).shards)
          → (b : Bool) (o p : Option ℕ)
          → (elim b as (λ x. ShardConfig) [
            | true ↦ over n shards
            | false ↦ move_shards fuel (move_between o p (over n shards))
          ]).shards
            ≡ (elim b as (λ x. ShardConfig) [
              | true ↦ over' n shards
              | false ↦ move_shards fuel (move_between o p (over' n shards))
            ]).shards
      step ih true o p = refl
      step ih false none p = ih shards
      step ih false (some mg) none = ih shards
      step ih false (some mg) (some lg) = ih (move_one mg lg shards)

assign_from_kept :
    (s : ℕ) (old : List ℕ) (c : ShardConfig)
    → assign_from s old c ≡ record c { shards = (assign_from s old c).shards }
unfolding assign_from
assign_from_kept s [] c = refl
assign_from_kept s (g ∷ old) c = step (assign_from_kept (s + 1) old) (has g c.groups) (least c)
  where
    step :
        ((d : ShardConfig)
          → assign_from (s + 1) old d ≡ record d { shards = (assign_from (s + 1) old d).shards })
        → (b : Bool) (o : Option ℕ)
        → assign_from (s + 1) old (if b then c else give s o c)
          ≡ record c { shards = (assign_from (s + 1) old (if b then c else give s o c)).shards }
    step ih true o = ih c
    step ih false none = ih c
    step ih false (some v) = ih (record c { shards = set c.shards s v })

same_empty : (m m' : Groups) → SameKeys m m' → ltb (length m) 1 ≡ ltb (length m') 1
same_empty [] [] s = refl
same_empty [] ((k, v) ∷ m') s = absurd (false≢true (s.same k ∙ rw ((==_iff k k).1 refl) refl))
same_empty ((k, v) ∷ m) [] s = absurd (false≢true (sym (s.same k) ∙ rw ((==_iff k k).1 refl) refl))
same_empty (g ∷ m) (g' ∷ m') s = ground arith

-- Rebalance assigns the shards in the same way whatever order the map of groups is in: it depends on
-- the gids that are there.
pub rebalance_order :
    (num : ℕ) (shards : List ℕ) (m m' : Groups)
    → SameKeys m m'
    → (rebalance (record { num = num; shards = shards; groups = m })).shards
      ≡ (rebalance (record { num = num; shards = shards; groups = m' })).shards
unfolding rebalance
rebalance_order num shards m m' same =
    rw (same_empty m m' same) (elim (Bool-cases (ltb (length m') 1)) [
      | inl p ↦ rw p refl
      | inr p ↦ rw p (
          ap (λ c. (move_shards rounds c).shards)
            (assign_from_kept 0 shards (over m m' same num shards))
          ∙ move_shards-over m m' same rounds num _
          ∙ ap (λ sh. (move_shards rounds (over' m m' same num sh)).shards)
              (assign_from-over m m' same 0 num shards shards)
          ∙ ap (λ c. (move_shards rounds c).shards)
              (sym (assign_from_kept 0 shards (over' m m' same num shards))))
    ])
