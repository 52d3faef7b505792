-- ===== src/Raft/Cluster.antt =====
-- raft1/raft.go: a cluster of peers over a network that loses, delays and reorders RPCs. Each step
-- runs one handler of one peer; AppendEntries, InstallSnapshot and their replies may hold anything.
pub mod Ballots
pub mod Cast
pub mod Count
pub mod Elected
pub mod Safety
use linearizable_kv_store.Prelude.{
  ℕ, suc, ◌+◌, ◌<◌, ◌≡◌, Bool, true, false, Option, none, some, List, ◌==◌, ltb, if◌then◌else◌,
  ◌&&◌, not,
}
use linearizable_kv_store.Prelude.Family.{update, put_at}
use linearizable_kv_store.Persister.{make_persister}
use linearizable_kv_store.Raft.{
  Codec, Raft, RequestVoteArgs, RequestVoteReply, AppendEntriesArgs, AppendEntriesReply,
  InstallSnapshotArgs, InstallSnapshotReply,
}
use linearizable_kv_store.Raft.State.{take_snapshot}
use linearizable_kv_store.Raft.Vote.{request_vote, tick, handle_vote_reply}
use linearizable_kv_store.Raft.Append.{append_entries}
use linearizable_kv_store.Raft.Install.{install_snapshot}
use linearizable_kv_store.Raft.Replicate.{start, snapshot_replied, entries_replied}
use linearizable_kv_store.Raft.Apply.{ApplyMsg, Picked, apply_pick, apply_done, make}

-- A vote request of one election to one peer. The server runs it at most once, and the goroutine
-- that sent it takes at most one reply.
pub data Rpc : Type 0 where
  idle : Rpc
  sent : RequestVoteArgs → Rpc
  replied : RequestVoteReply → Rpc
  dropped : Rpc
  counted : Rpc

abbrev pub in_flight : Rpc → Bool
in_flight (sent _) = true
in_flight (replied _) = true
in_flight _ = false

-- The indices of `votes` and `rpcs` are a candidate and its term, then a peer. `votes` is the
-- variable that the goroutines of an election share; the candidate's own vote is its counted RPC.
-- `ballots` is the history of votes, by peer and term, which the program does not keep.
pub record Cluster (C : Type 0) : Type 0 where
  pub servers : ℕ → Raft C
  pub votes : ℕ → ℕ → ℕ
  pub rpcs : ℕ → ℕ → ℕ → Rpc
  pub ballots : ℕ → ℕ → Option ℕ

-- startElection: a request to every other peer.
abbrev pub send_all : ℕ → ℕ → RequestVoteArgs → ℕ → Rpc
send_all n i args j = if i == j then counted else if ltb j n then sent args else idle

-- The handlers of one peer that take no part in the counting of votes.
pub data Move {C : Type 0} ⦃codec : Codec C⦄ (rf : Raft C) : Raft C → Type 0 where
  appends :
      (now : ℕ) (args : AppendEntriesArgs C) {rf' : Raft C} {reply : AppendEntriesReply}
      → append_entries now args rf ≡ some (rf', reply)
      → Move rf rf'
  installs :
      (now : ℕ) (args : InstallSnapshotArgs) {rf' : Raft C} {reply : InstallSnapshotReply}
      → install_snapshot now args rf ≡ some (rf', reply)
      → Move rf rf'
  snapshots :
      (index : ℕ) (snapshot : List ℕ) {rf' : Raft C}
      → take_snapshot index snapshot rf ≡ some rf'
      → Move rf rf'
  starts : (command : C) → Move rf (start command rf).0
  hears_snapshot :
      (peer : ℕ) (args : InstallSnapshotArgs) (reply : InstallSnapshotReply)
      → Move rf (snapshot_replied peer args reply rf)
  hears_entries :
      (peer : ℕ) (args : AppendEntriesArgs C) (reply : AppendEntriesReply) {rf' : Raft C}
      → entries_replied peer args reply rf ≡ some rf'
      → Move rf rf'
  picks : {rf' : Raft C} {picked : Picked C} → apply_pick rf ≡ some (rf', picked) → Move rf rf'
  delivered : (msg : ApplyMsg C) → Move rf (apply_done msg rf)
  restarts : (now randomized : ℕ) → Move rf (make now randomized rf.peers rf.me rf.persister)

module _ {C : Type 0} ⦃codec : Codec C⦄ where
  unfoldable pub initial : ℕ → Cluster C
  initial n = record {
    servers = λ i. make 0 0 n i make_persister;
    votes = λ i t. 0;
    rpcs = λ i t j. idle;
    ballots = λ j t. none;
  }

  -- One step of a cluster of `n` peers.
  pub data Step (n : ℕ) (s : Cluster C) : Cluster C → Type 0 where
    move :
        (i : ℕ) {rf' : Raft C}
        → Move (s.servers i) rf'
        → Step n s (record s { servers = update s.servers i rf' })
    waits :
        (i now randomized : ℕ) {rf' : Raft C}
        → tick now randomized (s.servers i) ≡ some (rf', none)
        → Step n s (record s { servers = update s.servers i rf' })
    elect :
        (i now randomized : ℕ) {rf' : Raft C} (args : RequestVoteArgs)
        → i < n
        → tick now randomized (s.servers i) ≡ some (rf', some args)
        → Step n s (record {
          servers = update s.servers i rf';
          votes = put_at i args.term 1 s.votes;
          rpcs = put_at i args.term (send_all n i args) s.rpcs;
          ballots = put_at i args.term (some i) s.ballots;
        })
    serve :
        (i t j now : ℕ) (args : RequestVoteArgs) {rf' : Raft C} (reply : RequestVoteReply)
        → s.rpcs i t j ≡ sent args
        → request_vote now args (s.servers j) ≡ some (rf', reply)
        → Step n s (record s {
          servers = update s.servers j rf';
          rpcs = put_at i t (update (s.rpcs i t) j (replied reply)) s.rpcs;
          ballots =
              if reply.vote_granted
              then put_at j args.term (some args.candidate_id) s.ballots
              else s.ballots;
        })
    lose :
        (i t j : ℕ)
        → in_flight (s.rpcs i t j) ≡ true
        → Step n s (record s { rpcs = put_at i t (update (s.rpcs i t) j dropped) s.rpcs })
    count :
        (i t j : ℕ) (reply : RequestVoteReply)
        → j < n
        → s.rpcs i t j ≡ replied reply
        → Step n s (record s {
          servers = update s.servers i (handle_vote_reply t (s.votes i t) reply (s.servers i)).0;
          votes = put_at i t (handle_vote_reply t (s.votes i t) reply (s.servers i)).1 s.votes;
          rpcs =
              put_at i t
                (update (s.rpcs i t) j (
                  if (handle_vote_reply t (s.votes i t) reply (s.servers i)).1 == s.votes i t
                  then dropped
                  else counted))
                s.rpcs;
        })

  pub data Reach (n : ℕ) : Cluster C → Type 0 where
    begin : Reach n (initial n)
    next : {s t : Cluster C} → Reach n s → Step n s t → Reach n t
