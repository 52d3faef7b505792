-- ===== src/Raft/Quiet.antt =====
-- raft1/raft.go: handlers that cast no vote and win no election, and what every peer keeps on disk.
pub mod Receive
pub mod Lead
pub mod Elect
use linearizable_kv_store.Prelude.{
  if◌then◌else◌, subst, length, ap, sym, ℕ, zero, suc, ◌+◌, ◌-◌, ◌≤◌, ◌<◌, ◌≡◌, Bool, true, false,
  Option, none, some, List, [], ◌∷◌, refl, arith, ◌∙◌, ltb, leb, ◌==◌, Option-cases, Bool-cases,
  inl, inr, not,
}
use mathlib.Core.Option.{some-injective}
use native.Mathlib.Decide.{dec_lt}
use linearizable_kv_store.Prelude.Panic.{◌>>=◌, >>=-eq-some}
use linearizable_kv_store.Raft.{
  Role, follower, candidate, leader, LogEntry, Persistent, Codec, Raft, AppendEntriesArgs,
  AppendEntriesReply, InstallSnapshotArgs, InstallSnapshotReply,
}
use linearizable_kv_store.Raft.State.{
  sentinel, read_persist, last_log_index, last_log_index, persistent, persist,
  persist_with_snapshot, become_follower, see_term, term_at, take_snapshot,
}
use linearizable_kv_store.Raft.Install.{kept_log, install_snapshot}
use linearizable_kv_store.Raft.Append.{
  raise_commit, first_index, merge, match_entries, append_entries,
}

module _ {C : Type 0} ⦃codec : Codec C⦄ where
  abbrev fresh : Persistent C
  fresh = record {
    current_term = 0;
    voted_for = none;
    log = sentinel 0 ∷ [];
    last_included_index = 0;
    last_included_term = 0;
  }

  -- What a restart finds on disk.
  unfoldable pub recovered : List ℕ → Persistent C
  recovered bytes =
      if ltb (length bytes) 1
      then fresh
      else elim (codec.decode bytes) [ none ↦ fresh | some p ↦ p ]

  pub recovered-encode : (p : Persistent C) → recovered (codec.encode p) ≡ p
  unfolding recovered
  recovered-encode p = ground (arith, codec.decode-encode p, codec.encode_pos p)

  -- A restart would find the term, the vote and the log that the peer has.
  abbrev pub IsDurable : Raft C → Type 0
  IsDurable rf = recovered rf.persister.raftstate ≡ persistent rf

  -- A step that casts no vote: the vote stays while the term does and is none in a later term, only
  -- a leader of the same term is a leader after it, and what is on disk follows.
  pub record Quiet (rf rf' : Raft C) : Type 0 where
    pub same_me : rf'.me ≡ rf.me
    pub same_peers : rf'.peers ≡ rf.peers
    pub term_grows : rf.current_term ≤ rf'.current_term
    pub vote_kept : rf.current_term ≡ rf'.current_term → rf'.voted_for ≡ rf.voted_for
    pub vote_fresh : rf.current_term < rf'.current_term → rf'.voted_for ≡ none
    pub no_new_leader :
        rf'.role ≡ leader → (rf.role ≡ leader) × (rf.current_term ≡ rf'.current_term)
    pub durable : IsDurable rf → IsDurable rf'

  pub Quiet-trans : {a b c : Raft C} → Quiet a b → Quiet b c → Quiet a c
  Quiet-trans {b} {c} p q = record {
    same_me = q.same_me ∙ p.same_me;
    same_peers = q.same_peers ∙ p.same_peers;
    term_grows = omega arith;
    vote_kept = λ e. q.vote_kept (omega arith) ∙ p.vote_kept (omega arith);
    vote_fresh = λ e. elim (dec_lt b.current_term c.current_term) [
      | yes later ↦ q.vote_fresh later
      | no same ↦ q.vote_kept (omega arith) ∙ p.vote_fresh (omega arith)
    ];
    no_new_leader =
        λ e. let (l, t) = q.no_new_leader e in let (k, u) = p.no_new_leader l in (k, u ∙ t);
    durable = λ d. q.durable (p.durable d);
  }

  pub become_follower-Quiet : (term : ℕ) (rf : Raft C) → Quiet rf (become_follower term rf)
  unfolding become_follower persist
  become_follower-Quiet term rf = elim (Bool-cases (ltb rf.current_term term)) [
    | inl p ↦ rw p (record {
      same_me = refl;
      same_peers = refl;
      term_grows = ground arith;
      vote_kept = λ e. absurd (ground arith);
      vote_fresh = λ e. refl;
      no_new_leader = λ e. cc;
      durable = λ d. recovered-encode _;
    })
    | inr p ↦ rw p (record {
      same_me = refl;
      same_peers = refl;
      term_grows = omega arith;
      vote_kept = λ e. refl;
      vote_fresh = λ e. absurd (omega arith);
      no_new_leader = λ e. cc;
      durable = λ d. d;
    })
  ]

  pub Quiet-refl : (rf : Raft C) → Quiet rf rf
  Quiet-refl rf = record {
    same_me = refl;
    same_peers = refl;
    term_grows = omega arith;
    vote_kept = λ e. refl;
    vote_fresh = λ e. absurd (omega arith);
    no_new_leader = λ e. (e, refl);
    durable = λ d. d;
  }

  pub see_term-Quiet : (term : ℕ) (rf : Raft C) → Quiet rf (see_term term rf)
  unfolding see_term
  see_term-Quiet term rf = elim (Bool-cases (ltb rf.current_term term)) [
    | inl p ↦ rw p (become_follower-Quiet term rf)
    | inr p ↦ rw p (Quiet-refl rf)
  ]

  -- A change of fields that are not on disk, and of no vote, term or leadership.
  pub volatile-Quiet :
      (rf rf' : Raft C)
      → rf'.me ≡ rf.me
      → rf'.peers ≡ rf.peers
      → persistent rf' ≡ persistent rf
      → rf'.persister ≡ rf.persister
      → (rf'.role ≡ leader → rf.role ≡ leader)
      → Quiet rf rf'
  volatile-Quiet rf rf' m n p d r = record {
    same_me = m;
    same_peers = n;
    term_grows = omega (arith, term);
    vote_kept = λ e. ap (λ (t : Persistent C). t.voted_for) p;
    vote_fresh = λ e. absurd (omega (arith, term));
    no_new_leader = λ e. (r e, sym term);
    durable = λ q. rw (d, p) q;
  }
    where
      term : rf'.current_term ≡ rf.current_term
      term = ap (λ (t : Persistent C). t.current_term) p

  pub raise_commit-Quiet : (n : ℕ) (rf : Raft C) → Quiet rf (raise_commit n rf)
  unfolding raise_commit
  raise_commit-Quiet n rf =
      volatile-Quiet rf _ (ground arith) (ground arith) (ground arith) (ground arith)
        (λ e. ground arith)

  -- A new log that is written to disk.
  pub persist-Quiet :
      (rf : Raft C) (log : List (LogEntry C)) → Quiet rf (persist (record rf { log = log }))
  unfolding persist
  persist-Quiet rf log = record {
    same_me = refl;
    same_peers = refl;
    term_grows = omega arith;
    vote_kept = λ e. refl;
    vote_fresh = λ e. absurd (omega arith);
    no_new_leader = λ e. (e, refl);
    durable = λ d. recovered-encode _;
  }

  pub result-Quiet :
      {R : Type 0} (rf : Raft C) {a rf' : Raft C} {r r' : R}
      → ◌≡◌ {A = Option (Raft C × R)} (some (a, r)) (some (rf', r'))
      → Quiet rf a
      → Quiet rf rf'
  result-Quiet rf e q = subst (λ t. Quiet rf t.0) (some-injective _ _ e) q

  -- New fields that are written to disk, with the same vote, term and role.
  pub saved-Quiet :
      (snapshot : List ℕ) (rf rf' : Raft C)
      → rf'.me ≡ rf.me
      → rf'.peers ≡ rf.peers
      → rf'.current_term ≡ rf.current_term
      → rf'.voted_for ≡ rf.voted_for
      → rf'.role ≡ rf.role
      → Quiet rf (persist_with_snapshot snapshot rf')
  unfolding persist_with_snapshot
  saved-Quiet snapshot rf rf' m n t v r = record {
    same_me = m;
    same_peers = n;
    term_grows = omega arith;
    vote_kept = λ e. v;
    vote_fresh = λ e. absurd (omega arith);
    no_new_leader = λ e. (sym r ∙ e, sym t);
    durable = λ d. recovered-encode _;
  }
