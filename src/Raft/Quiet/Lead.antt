-- ===== src/Raft/Quiet/Lead.antt =====
-- raft1/raft.go: a leader's handlers, the applier and a restart cast no vote and win no election.
use linearizable_kv_store.Prelude.{
  get_elem?, ap, ◌||◌, ◌&&◌, sym, ℕ, zero, suc, ◌+◌, ◌-◌, ◌≡◌, some, refl, arith, ◌∙◌, ltb, leb,
  ◌==◌, Option-cases, Bool-cases, inl, inr, not,
}
use mathlib.Core.Option.{some-injective}
use linearizable_kv_store.Prelude.Panic.{>>=-eq-some}
use linearizable_kv_store.Raft.{
  Role, follower, leader, Persistent, Codec, Raft, AppendEntriesArgs, AppendEntriesReply,
  InstallSnapshotArgs, InstallSnapshotReply,
}
use linearizable_kv_store.Raft.State.{
  read_persist, is_leader, last_log_index, last_log_index, persistent, persist, term_at,
}
use linearizable_kv_store.Raft.Commit.{advance_from, advance_commit, has_majority}
use linearizable_kv_store.Raft.Vote.{reset_election_timer}
use linearizable_kv_store.Raft.Replicate.{start, snapshot_replied, entries_replied, backed_up}
use linearizable_kv_store.Raft.Apply.{ApplyMsg, Picked, apply_pick, apply_done, make}
use linearizable_kv_store.Raft.Quiet.{
  recovered, IsDurable, Quiet, Quiet-refl, Quiet-trans, become_follower-Quiet, volatile-Quiet,
  persist-Quiet, result-Quiet,
}
use linearizable_kv_store.Persister.{Persister, read_raft_state, read_snapshot}

module _ (C : Type 0) ⦃codec : Codec C⦄ where
  pub make_fields :
      (now randomized peers me : ℕ) (ps : Persister)
      → ((make {C = C} now randomized peers me ps).me ≡ me)
        × ((make {C = C} now randomized peers me ps).peers ≡ peers)
        × ((make {C = C} now randomized peers me ps).persister ≡ ps)
        × ((make {C = C} now randomized peers me ps).role ≡ follower)
  unfolding make read_persist reset_election_timer read_raft_state read_snapshot
  make_fields now randomized peers me ps = (ground arith, ground arith, ground arith, ground arith)

module _ {C : Type 0} ⦃codec : Codec C⦄ where
  -- The loop that looks for a commit index changes that index alone.
  pub advance_from-commit :
      (n : ℕ) (rf : Raft C) {rf' : Raft C}
      → advance_from n rf ≡ some rf'
      → rf' ≡ record rf { commit_index = rf'.commit_index }
  unfolding advance_from
  advance_from-commit zero rf h = rw (← some-injective _ _ h)
  advance_from-commit (suc n) rf h = elim (Bool-cases (leb (suc n) rf.commit_index)) [
    | inl p ↦ rw (← some-injective _ _ (rw p at h))
    | inr p ↦ elim (Bool-cases (leb (suc n) rf.last_included_index)) [
      | inl q ↦ rw (← some-injective _ _ (rw (p, q) at h))
      | inr q ↦
          let (t, found, rest) = >>=-eq-some (term_at rf (suc n)) _ (rw (p, q) at h) in
          elim (Bool-cases (t == rf.current_term)) [
            | inr r ↦ advance_from-commit n rf (rw r at rest)
            | inl r ↦ elim (Bool-cases (has_majority (suc n) rf)) [
              | inl m ↦ rw (← some-injective _ _ (rw (r, m) at rest))
              | inr m ↦ advance_from-commit n rf (rw (r, m) at rest)
            ]
          ]
    ]
  ]

  advance_commit-Quiet : (rf : Raft C) {rf' : Raft C} → advance_commit rf ≡ some rf' → Quiet rf rf'
  unfolding advance_commit
  advance_commit-Quiet rf {rf'} h =
      rw (advance_from-commit (last_log_index rf) rf h)
        (volatile-Quiet rf _ refl refl refl refl (λ e. e))

  pub start-Quiet : (command : C) (rf : Raft C) → Quiet rf (start command rf).0
  unfolding start persist
  start-Quiet command rf = elim (Bool-cases (is_leader rf.role)) [
    | inl p ↦
        rw p (Quiet-trans (persist-Quiet rf _) (volatile-Quiet _ _ refl refl refl refl (λ e. e)))
    | inr p ↦ rw p (Quiet-refl rf)
  ]

  pub snapshot_replied-Quiet :
      (peer : ℕ) (args : InstallSnapshotArgs) (reply : InstallSnapshotReply) (rf : Raft C)
      → Quiet rf (snapshot_replied peer args reply rf)
  unfolding snapshot_replied
  snapshot_replied-Quiet peer args reply rf =
      elim (Bool-cases (not (rf.current_term == args.term) || not (is_leader rf.role))) [
        | inl p ↦ rw p (Quiet-refl rf)
        | inr p ↦ elim (Bool-cases (ltb rf.current_term reply.term)) [
          | inl q ↦ rw (p, q) (become_follower-Quiet reply.term rf)
          | inr q ↦ rw (p, q) (volatile-Quiet rf _ refl refl refl refl (λ e. e))
        ]
      ]

  -- A peer that has handled a reply to its entries without a panic keeps its identity and the
  -- number of peers, does not lower its term, keeps its vote while the term stays and has no vote
  -- in a later term, is a leader only if it was one in the same term, and has on disk the term,
  -- vote, log and snapshot indices that it has in memory if that was so before.
  pub entries_replied-Quiet :
      (peer : ℕ) (args : AppendEntriesArgs C) (reply : AppendEntriesReply) (rf : Raft C)
      {rf' : Raft C}
      → entries_replied peer args reply rf ≡ some rf'
      → Quiet rf rf'
  unfolding entries_replied
  entries_replied-Quiet peer args reply rf h =
      elim (Bool-cases (not (rf.current_term == args.term) || not (is_leader rf.role))) [
        | inl p ↦ rw (← some-injective _ _ (rw p at h)) (Quiet-refl rf)
        | inr p ↦ elim (Bool-cases (ltb rf.current_term reply.term)) [
          | inl q ↦ rw (← some-injective _ _ (rw (p, q) at h)) (become_follower-Quiet reply.term rf)
          | inr q ↦ elim (Bool-cases reply.success) [
            | inl r ↦
                Quiet-trans (volatile-Quiet rf _ refl refl refl refl (λ e. e))
                  (advance_commit-Quiet _ (rw (p, q, r) at h))
            | inr r ↦
                let (old, _, rest) =
                  >>=-eq-some (get_elem? rf.next_index peer) _ (rw (p, q, r) at h) in
                let (next, _, last) = >>=-eq-some (backed_up _ old rf) _ rest in
                rw (← some-injective _ _ last) (volatile-Quiet rf _ refl refl refl refl (λ e. e))
          ]
        ]
      ]

  pub apply_pick-Quiet :
      (rf : Raft C) {rf' : Raft C} {picked : Picked C}
      → apply_pick rf ≡ some (rf', picked)
      → Quiet rf rf'
  unfolding apply_pick
  apply_pick-Quiet rf h = elim (Option-cases rf.pending_snapshot) [
    | inr (bytes, p) ↦
        result-Quiet rf (rw p at h) (volatile-Quiet rf _ refl refl refl refl (λ e. e))
    | inl p ↦
        elim (Bool-cases
          (ltb rf.last_applied rf.commit_index && leb rf.last_included_index rf.last_applied)) [
            | inr q ↦
                result-Quiet rf (rw (p, q) at h) (volatile-Quiet rf _ refl refl refl refl (λ e. e))
            | inl q ↦ elim (Bool-cases (leb (rf.last_applied + 1) rf.last_included_index)) [
              | inl r ↦
                  result-Quiet rf (rw (p, q, r) at h)
                    (volatile-Quiet rf _ refl refl refl refl (λ e. e))
              | inr r ↦
                  let (entry, _, last) =
                    >>=-eq-some (get_elem? rf.log (rf.last_applied + 1 - rf.last_included_index)) _
                      (rw (p, q, r) at h) in
                  result-Quiet rf last (volatile-Quiet rf _ refl refl refl refl (λ e. e))
            ]
          ]
  ]

  pub apply_done-Quiet : (msg : ApplyMsg C) (rf : Raft C) → Quiet rf (apply_done msg rf)
  unfolding apply_done
  apply_done-Quiet msg rf =
      volatile-Quiet rf _ (ground arith) (ground arith) (ground arith) (ground arith)
        (λ e. ground arith)

  pub persistent-make :
      (now randomized peers me : ℕ) (ps : Persister)
      → persistent {C = C} (make now randomized peers me ps) ≡ recovered ps.raftstate
  unfolding make read_persist reset_election_timer recovered read_raft_state read_snapshot
  persistent-make now randomized peers me ps = ground arith

  -- A peer that stops and is made again from its persister.
  abbrev pub restart : ℕ → ℕ → Raft C → Raft C
  restart now randomized rf = make now randomized rf.peers rf.me rf.persister

  -- A peer whose state is on disk and that is made again from its persister keeps its identity and
  -- the number of peers, does not lower its term, keeps its vote while the term stays and has no
  -- vote in a later term, is a leader only if it was one in the same term, and has on disk what it
  -- has in memory.
  pub restart-Quiet :
      (now randomized : ℕ) (rf : Raft C) → IsDurable rf → Quiet rf (restart now randomized rf)
  restart-Quiet now randomized rf d =
      let (me, peers, disk, role) = make_fields C now randomized rf.peers rf.me rf.persister in
      volatile-Quiet rf _ me peers (persistent-make now randomized rf.peers rf.me rf.persister ∙ d)
        disk (λ e. absurd (follower_ne (sym role ∙ e)))
    where
      follower_ne : ◌≡◌ {A = Role} follower leader → ⊥
      follower_ne e = cc

  -- What a restart keeps: identity, term, vote, log and snapshot indices, and the disk. No one leads.
  pub record Restarted (rf rf' : Raft C) : Type 0 where
    pub same_me : rf'.me ≡ rf.me
    pub same_peers : rf'.peers ≡ rf.peers
    pub same_term : rf'.current_term ≡ rf.current_term
    pub same_vote : rf'.voted_for ≡ rf.voted_for
    pub same_state : persistent rf' ≡ persistent rf
    pub same_disk : rf'.persister ≡ rf.persister
    pub no_leader : rf'.role ≡ follower
    pub durable : IsDurable rf'

  -- A peer whose state is on disk and that is made again from its persister keeps its identity, the
  -- number of peers, its term, its vote, its log, its snapshot indices and its persister, is a
  -- follower, and has on disk what it has in memory.
  pub restart-Restarted :
      (now randomized : ℕ) (rf : Raft C) → IsDurable rf → Restarted rf (restart now randomized rf)
  restart-Restarted now randomized rf d =
      let (me, peers, disk, role) = make_fields C now randomized rf.peers rf.me rf.persister in
      let made = persistent-make now randomized rf.peers rf.me rf.persister in
      record {
        same_me = me;
        same_peers = peers;
        same_term = ap (λ (p : Persistent C). p.current_term) (made ∙ d);
        same_vote = ap (λ (p : Persistent C). p.voted_for) (made ∙ d);
        same_state = made ∙ d;
        same_disk = disk;
        no_leader = role;
        durable = ap (λ (ps : Persister). recovered ps.raftstate) disk ∙ sym made;
      }
