-- ===== src/Raft/Cluster/Count.antt =====
-- raft1/raft.go: the counting of a vote reply keeps the invariant of the votes.
use linearizable_kv_store.Prelude.{
  ℕ, ◌+◌, ◌*◌, ◌<◌, ◌≡◌, refl, sym, ap, ◌∙◌, false, ◌==◌, ==_iff, if◌then◌else◌, arith,
}
use linearizable_kv_store.Prelude.Family.{update, update_cases, put_at, put_at_cases, sum_below}
use linearizable_kv_store.Raft.{leader, Persistent, Codec, Raft, RequestVoteReply}
use linearizable_kv_store.Raft.State.{persistent}
use linearizable_kv_store.Raft.Quiet.Elect.{Counted, ignored, one_more}
use linearizable_kv_store.Raft.Cluster.{idle, replied, dropped, counted, in_flight, Cluster}
use linearizable_kv_store.Raft.Cluster.Ballots.{backs, weight, Agrees, Inv, Quiet-Inv, Rpc-Inv}
use linearizable_kv_store.Raft.Cluster.Cast.{Count-Inv}

pub put_at-same {ℓ} :
    {A : Type ℓ} (f : ℕ → ℕ → A) (i t : ℕ) (x : A) {j u : ℕ}
    → i ≡ j
    → t ≡ u
    → put_at i t x f j u ≡ x
put_at-same f i t x {j} {u} p q = rw ((==_iff j i).1 (sym p), (==_iff u t).1 (sym q)) refl

suc_ne : (m : ℕ) → (m + 1 == m) ≡ false
suc_ne m = ground arith

votes_lt : {n p m v : ℕ} → p ≡ n → p < m * 2 → v ≡ m → n < v * 2
votes_lt e h f = omega arith

module _ {C : Type 0} ⦃codec : Codec C⦄ where
  -- A candidate that becomes a leader on a majority, or stays one.
  Lead-Inv :
      {n : ℕ} {s : Cluster C} (i : ℕ) (rf' : Raft C)
      → rf'.me ≡ (s.servers i).me
      → rf'.peers ≡ (s.servers i).peers
      → persistent rf' ≡ persistent (s.servers i)
      → rf'.persister ≡ (s.servers i).persister
      → (rf'.role ≡ leader → n < s.votes i rf'.current_term * 2)
      → Inv n s
      → Inv n (record s { servers = update s.servers i rf' })
  Lead-Inv {n} {s} i rf' m p keep disk won inv = record {
    agrees =
        update_cases (λ j rf. Agrees j n (s.ballots j) rf) s.servers i rf'
          (record {
            me = m ∙ (inv.agrees i).me;
            peers = p ∙ (inv.agrees i).peers;
            durable = rw (disk, keep) (inv.agrees i).durable;
            now = ap (s.ballots i) term ∙ (inv.agrees i).now ∙ sym vote;
            later = λ t h. (inv.agrees i).later t (rw term at h);
          })
          inv.agrees;
    asked = inv.asked;
    backed = inv.backed;
    tally = inv.tally;
    unsent = λ k t j.
        update_cases (λ k rf. rf.current_term < t → s.rpcs k t j ≡ idle) s.servers i rf'
          (λ h. inv.unsent i t j (rw term at h)) (λ k. inv.unsent k t j) k;
    led =
        update_cases (λ k rf. rf.role ≡ leader → n < s.votes k rf.current_term * 2) s.servers i rf'
          won inv.led;
  }
    where
      term : rf'.current_term ≡ (s.servers i).current_term
      term = ap (λ (x : Persistent C). x.current_term) keep

      vote : rf'.voted_for ≡ (s.servers i).voted_for
      vote = ap (λ (x : Persistent C). x.voted_for) keep

  -- The same counts.
  Same-Inv :
      {n : ℕ} {s : Cluster C} (i t : ℕ)
      → Inv n s
      → Inv n (record s { votes = put_at i t (s.votes i t) s.votes })
  Same-Inv {n} {s} i t inv = record {
    agrees = inv.agrees;
    asked = inv.asked;
    backed = inv.backed;
    tally =
        put_at_cases (λ a b v. v ≡ sum_below n (λ j. weight (s.rpcs a b j))) s.votes i t _
          (inv.tally i t) (λ a b _. inv.tally a b);
    unsent = inv.unsent;
    led = λ k l.
        put_at_cases (λ a b v. n < s.votes a b * 2 → n < v * 2) s.votes i t _ (λ h. h)
          (λ a b _ h. h) k _ (inv.led k l);
  }

  pub Counted-Inv :
      {n : ℕ} {s : Cluster C} (i t j : ℕ) (reply : RequestVoteReply) {rf' : Raft C} {m : ℕ}
      → j < n
      → s.rpcs i t j ≡ replied reply
      → Counted t (s.votes i t) reply.vote_granted (s.servers i) rf' m
      → Inv n s
      → Inv n (record s {
        servers = update s.servers i rf';
        votes = put_at i t m s.votes;
        rpcs =
            put_at i t
              (update (s.rpcs i t) j (if m == s.votes i t then dropped else counted))
              s.rpcs;
      })
  Counted-Inv {n} {s} i t j reply {rf'} below found (ignored e q) inv =
      rw (e, (==_iff (s.votes i t) (s.votes i t)).1 refl)
        (Same-Inv i t (
          Quiet-Inv i q (
            Rpc-Inv i t j dropped (ap in_flight found) (λ args e. absurd (ground arith)) refl
              (λ e. absurd (ground arith)) inv)))
  Counted-Inv {n} {s} i t j reply {rf'} below found
        (one_more e granted now stood me peers kept disk won) inv =
      rw (e, suc_ne (s.votes i t))
        (Lead-Inv i rf' me peers kept disk
          (λ l.
            votes_lt (inv.agrees i).peers (won l)
              (put_at-same s.votes i t (s.votes i t + 1) refl (sym now ∙ sym term) ∙ sym e))
          (Count-Inv i t j below (ap in_flight found) (inv.backed i t j (ap backs found ∙ granted))
            inv))
    where
      term : rf'.current_term ≡ (s.servers i).current_term
      term = ap (λ (x : Persistent C). x.current_term) kept
