-- ===== src/Raft/Cluster/Safety.antt =====
-- raft1/raft.go: at most one leader per term, from the invariant of the votes.
use linearizable_kv_store.Prelude.{
  ℕ, ◌+◌, ◌*◌, ◌≤◌, ◌<◌, ◌≡◌, ◌≢◌, ◌⊎◌, inl, inr, refl, sym, ap, ◌∙◌, subst, true, none, ◌==◌,
  ==_iff, arith, Bool-cases,
}
use mathlib.Core.Bool.{false≢true}
use mathlib.Core.Option.{some-injective, none-ne-some, some-ne-none}
use linearizable_kv_store.Prelude.Family.{sum_below-zero, sum_below_disjoint}
use linearizable_kv_store.Raft.{follower, leader, Persistent, Codec, Raft}
use linearizable_kv_store.Raft.Quiet.{IsDurable, Quiet, recovered}
use linearizable_kv_store.Raft.Quiet.Receive.{
  append_entries-Quiet, install_snapshot-Quiet, take_snapshot-Quiet,
}
use linearizable_kv_store.Raft.Quiet.Lead.{
  start-Quiet, snapshot_replied-Quiet, entries_replied-Quiet, apply_pick-Quiet, apply_done-Quiet,
  restart-Quiet, persistent-make, make_fields,
}
use linearizable_kv_store.Raft.Quiet.Elect.{
  request_vote-Voted, Stood, stays, stands, tick-Ticked, handle_vote_reply-Counted,
}
use linearizable_kv_store.Raft.Apply.{make}
use linearizable_kv_store.Persister.{make_persister}
use linearizable_kv_store.Raft.Cluster.{
  Rpc, idle, sent, replied, dropped, counted, Cluster, Move, appends, installs, snapshots, starts,
  hears_snapshot, hears_entries, picks, delivered, restarts, initial, Step, move, waits, elect,
  serve, lose, count, Reach, begin, next,
}
use linearizable_kv_store.Raft.Cluster.Ballots.{backs, weight, Agrees, Inv, Quiet-Inv, Rpc-Inv}
use linearizable_kv_store.Raft.Cluster.Count.{Counted-Inv}
use linearizable_kv_store.Raft.Cluster.Elected.{Elected-Inv, Served-Inv}

two_majorities : {n a b c d : ℕ} → n < a * 2 → n < b * 2 → a ≡ c → b ≡ d → ¬ (c + d ≤ n)
two_majorities h k p q l = omega arith

weight_cases : (r : Rpc) → (weight r ≡ 0) ⊎ ((weight r ≡ 1) × (backs r ≡ true))
weight_cases idle = inl refl
weight_cases (sent args) = inl refl
weight_cases (replied reply) = inl refl
weight_cases dropped = inl refl
weight_cases counted = inr (refl, refl)

follower_ne : follower ≢ leader
follower_ne e = cc

module _ (C : Type 0) ⦃codec : Codec C⦄ where
  initial-Agrees : (n j : ℕ) → Agrees {C = C} j n (λ t. none) (make 0 0 n j make_persister)
  unfolding make_persister recovered
  initial-Agrees n j =
      let (me, peers, disk, role) = make_fields C 0 0 n j make_persister in
      let kept = persistent-make {C = C} 0 0 n j make_persister in
      record {
        me = me;
        peers = peers;
        durable = rw (disk, kept) refl;
        now = sym (ap (λ (x : Persistent C). x.voted_for) kept);
        later = λ t h. refl;
      }

  initial-Inv : (n : ℕ) → Inv {C = C} n (initial n)
  unfolding initial
  initial-Inv n = record {
    agrees = initial-Agrees n;
    asked = λ i t j args e. absurd (ground arith);
    backed = λ i t j e. absurd (ground arith);
    tally = λ i t. sym (sum_below-zero n _ (λ k. refl));
    unsent = λ i t j h. refl;
    led = λ i l.
        let (me, peers, disk, role) = make_fields C 0 0 n i make_persister in
        absurd (follower_ne (sym role ∙ l));
  }

module _ {C : Type 0} ⦃codec : Codec C⦄ where
  Move-Quiet : {rf rf' : Raft C} → IsDurable rf → Move rf rf' → Quiet rf rf'
  Move-Quiet {rf} d (appends now args h) = append_entries-Quiet now args rf h
  Move-Quiet {rf} d (installs now args h) = install_snapshot-Quiet now args rf h
  Move-Quiet {rf} d (snapshots index snapshot h) = take_snapshot-Quiet index snapshot rf h
  Move-Quiet {rf} d (starts command) = start-Quiet command rf
  Move-Quiet {rf} d (hears_snapshot peer args reply) = snapshot_replied-Quiet peer args reply rf
  Move-Quiet {rf} d (hears_entries peer args reply h) = entries_replied-Quiet peer args reply rf h
  Move-Quiet {rf} d (picks h) = apply_pick-Quiet rf h
  Move-Quiet {rf} d (delivered msg) = apply_done-Quiet msg rf
  Move-Quiet {rf} d (restarts now randomized) = restart-Quiet now randomized rf d

  Step-Inv : {n : ℕ} {s s' : Cluster C} → Step n s s' → Inv n s → Inv n s'
  Step-Inv {s} (move i step) inv = Quiet-Inv i (Move-Quiet ((inv.agrees i).durable) step) inv
  Step-Inv {s} (waits i now randomized h) inv = elim (tick-Ticked now randomized (s.servers i) h) [
    | stays e q ↦ Quiet-Inv i q inv
    | stands args e st ↦ absurd (none-ne-some args e)
  ]
  Step-Inv {n} {s} (elect i now randomized {rf'} args below h) inv =
      elim (tick-Ticked now randomized (s.servers i) h) [
        | stays e q ↦ absurd (some-ne-none args e)
        | stands args' e st ↦
            Elected-Inv i args below
              (subst (Stood (s.servers i) rf') (sym (some-injective args args' e)) st) inv
      ]
  Step-Inv {s} (serve i t j now args reply found h) inv =
      Served-Inv i t j args reply found (request_vote-Voted now args (s.servers j) h) inv
  Step-Inv {s} (lose i t j flying) inv =
      Rpc-Inv i t j dropped flying (λ args e. absurd (ground arith)) refl
        (λ e. absurd (ground arith)) inv
  Step-Inv {s} (count i t j reply below found) inv =
      Counted-Inv i t j reply below found
        (handle_vote_reply-Counted t (s.votes i t) reply (s.servers i)) inv

  Reach-Inv : {n : ℕ} {s : Cluster C} → Reach n s → Inv n s
  Reach-Inv {n} begin = initial-Inv C n
  Reach-Inv (next r step) = Step-Inv step (Reach-Inv r)

  one_backer :
      {n : ℕ} {s : Cluster C} (i j t : ℕ)
      → Inv n s
      → i ≢ j
      → (k : ℕ) → weight (s.rpcs i t k) + weight (s.rpcs j t k) ≤ 1
  one_backer {s} i j t inv other k = elim (weight_cases (s.rpcs i t k)) [
    | inl p ↦ elim (weight_cases (s.rpcs j t k)) [
      | inl q ↦ rw (p, q) (omega arith)
      | inr (q, _) ↦ rw (p, q) (omega arith)
    ]
    | inr (p, b) ↦ elim (weight_cases (s.rpcs j t k)) [
      | inl q ↦ rw (p, q) (omega arith)
      | inr (q, c) ↦
          absurd (other (some-injective i j (sym (inv.backed i t k b) ∙ inv.backed j t k c)))
    ]
  ]

  -- In every state that a cluster of `n` peers reaches, over a network that loses, delays and
  -- reorders RPCs and with peers that restart from their persisters, two peers that are both leaders
  -- of the same term are the same peer.
  pub election_safety :
      {n : ℕ} {s : Cluster C} (i j : ℕ)
      → Reach n s
      → (s.servers i).role ≡ leader
      → (s.servers j).role ≡ leader
      → (s.servers i).current_term ≡ (s.servers j).current_term
      → i ≡ j
  election_safety {n} {s} i j r li lj e = elim (Bool-cases (i == j)) [
    | inl p ↦ (==_iff i j).0 p
    | inr p ↦ absurd (
        two_majorities (inv.led i li) (subst (λ t. n < s.votes j t * 2) (sym e) (inv.led j lj))
          (inv.tally i (s.servers i).current_term) (inv.tally j (s.servers i).current_term)
          (sum_below_disjoint n _ _ (
            one_backer i j (s.servers i).current_term inv
              (λ q. absurd (false≢true (sym p ∙ (==_iff i j).1 q))))))
  ]
    where
      inv : Inv n s
      inv = Reach-Inv r
