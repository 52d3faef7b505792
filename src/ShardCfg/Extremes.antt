-- ===== src/ShardCfg/Extremes.antt =====
-- shardkv1/shardcfg/shardcfg.go: analyze finds a most and a least loaded group.
use linearizable_kv_store.Prelude.{
  ℕ, ◌≤◌, ◌<◌, ◌≡◌, refl, ◌∙◌, subst, Bool, true, none, some, List, [], ◌∷◌, ◌==◌, ==_iff,
  if◌then◌else◌, arith, Bool-cases, inl, inr, length, ap, ltb, ◌||◌,
}
use linearizable_kv_store.Prelude.Assoc.{mem, keys}
use mathlib.Core.Path.{fun_ext}
use linearizable_kv_store.ShardCfg.{ShardConfig}
use linearizable_kv_store.ShardCfg.Rebalance.{count, Load, above, weigh, weigh_all, analyze, sort}
use linearizable_kv_store.ShardCfg.Count.{count-le, mem-sort}

-- Of the groups in `seen`, `l` names one with the most and one with the fewest shards.
pub record Extremes (shards : List ℕ) (seen : ℕ → Bool) (l : Load) : Type 0 where
  pub mg : ℕ
  pub mn : ℕ
  pub lg : ℕ
  pub most_gid : l.most_gid ≡ some mg
  pub most : l.most ≡ some mn
  pub least_gid : l.least_gid ≡ some lg
  pub mg_seen : seen mg ≡ true
  pub lg_seen : seen lg ≡ true
  pub mn_count : count mg shards ≡ mn
  pub ln_count : count lg shards ≡ l.least
  pub upper : (g : ℕ) → seen g ≡ true → count g shards ≤ mn
  pub lower : (g : ℕ) → seen g ≡ true → l.least ≤ count g shards

weigh-first :
    (shards : List ℕ) (g : ℕ)
    → length shards < 257
    → Extremes shards
        (λ x. x == g)
        (weigh shards g (record { most_gid = none; most = none; least_gid = none; least = 257 }))
unfolding weigh
weigh-first shards g short = record {
  mg = g;
  mn = count g shards;
  lg = g;
  most_gid = refl;
  most = refl;
  least_gid = ground (arith, count-le g shards);
  mg_seen = ground arith;
  lg_seen = ground arith;
  mn_count = refl;
  ln_count = ground (arith, count-le g shards);
  upper = λ x h. rw ((==_iff x g).0 h) (omega arith);
  lower = λ x h. rw ((==_iff x g).0 h) (ground (arith, count-le g shards));
}

weigh-next :
    (shards : List ℕ) (seen : ℕ → Bool) (g : ℕ) (l : Load)
    → Extremes shards seen l
    → Extremes shards (λ x. x == g || seen x) (weigh shards g l)
unfolding weigh
weigh-next shards seen g l e = record {
  mg = if more then g else e.mg;
  mn = if more then count g shards else e.mn;
  lg = if ltb (count g shards) l.least then g else e.lg;
  most_gid = ground (arith, more_lem);
  most = ground (arith, more_lem);
  least_gid = ground arith;
  mg_seen = ground (arith, g_seen);
  lg_seen = ground (arith, g_seen);
  mn_count = ground arith;
  ln_count = ground arith;
  upper = λ x h. elim (Bool-cases (x == g)) [
    | inl p ↦ rw ((==_iff x g).0 p) (ground arith)
    | inr p ↦ ground (arith, e.upper x)
  ];
  lower = λ x h. elim (Bool-cases (x == g)) [
    | inl p ↦ rw ((==_iff x g).0 p) (ground arith)
    | inr p ↦ ground (arith, e.lower x)
  ];
}
  where
    more : Bool
    more = ltb e.mn (count g shards)

    more_lem : above (count g shards) l.most ≡ more
    more_lem = ap (above (count g shards)) e.most

    g_seen : (g == g) ≡ true
    g_seen = (==_iff g g).1 refl

Extremes-congr :
    {shards : List ℕ} {seen seen' : ℕ → Bool} {l : Load}
    → ((x : ℕ) → seen x ≡ seen' x)
    → Extremes shards seen l
    → Extremes shards seen' l
Extremes-congr {shards} {l} h e = subst (λ s. Extremes shards s l) (fun_ext h) e

weigh_all-Extremes :
    (shards gs : List ℕ) (seen : ℕ → Bool) (l : Load)
    → Extremes shards seen l
    → Extremes shards (λ x. mem x gs || seen x) (weigh_all shards gs l)
unfolding weigh_all
weigh_all-Extremes shards [] seen l e = e
weigh_all-Extremes shards (g ∷ gs) seen l e =
    Extremes-congr (λ x. ground arith)
      (weigh_all-Extremes shards gs _ _ (weigh-next shards seen g l e))

weigh_all-first :
    (shards gs : List ℕ) (g : ℕ)
    → length shards < 257
    → mem g gs ≡ true
    → Extremes shards
        (λ x. mem x gs)
        (weigh_all shards gs
          (record { most_gid = none; most = none; least_gid = none; least = 257 }))
unfolding weigh_all
weigh_all-first shards [] g short h = absurd (ground arith)
weigh_all-first shards (k ∷ gs) g short h =
    Extremes-congr (λ x. ground arith)
      (weigh_all-Extremes shards gs _ _ (weigh-first shards k short))

-- With at least one group, and no more shards than the initial minimum allows.
pub analyze-Extremes :
    (c : ShardConfig) (g : ℕ)
    → length c.shards < 257
    → mem g (keys c.groups) ≡ true
    → Extremes c.shards (λ x. mem x (keys c.groups)) (analyze c)
unfolding analyze
analyze-Extremes c g short h =
    Extremes-congr (λ x. mem-sort x (keys c.groups))
      (weigh_all-first c.shards (sort (keys c.groups)) g short (mem-sort g (keys c.groups) ∙ h))
