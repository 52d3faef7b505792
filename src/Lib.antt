-- ===== src/Lib.antt =====
-- A linearizable key/value store: the server with versioned puts, its clerk, a lock over it, a Raft
-- peer, the configurations of a sharded store, the network that carries the requests, and the parts of
-- the tester that wire it.
--
-- Parts, by file:
-- - Rpc: kvsrv1/rpc/rpc.go, errors, arguments and replies. A version is a uint64: a number whose
--   successor wraps at 2 ^ 64.
-- - KvServer: kvsrv1/server.go. MakeKVServer, Get and Put are make_kv_server, get and put; each
--   handler runs under the server's mutex, so it is one step from state to state.
-- - KvModel: models1/kv.go, the specification of one key that the linearizability checker runs, and in
--   KvModel/History its Partition of a history into keys.
-- - Clerk: kvsrv1/client.go. The loops of Clerk.Get and Clerk.Put are recursions on a list of
--   rounds; a round holds what the server handles for other clients before the call, and the fate of
--   the call (request lost, reply lost, delivered). A loop that has used up its rounds has no result
--   yet; one delivered call ends it. A handler that runs only after its call was given up, which
--   Labrpc allows once the client's end is disabled or the server is replaced, is no fate of the call.
-- - Lock: kvsrv1/lock/lock.go, as a step relation over any number of users of one lock. Each call of
--   the clerk is one step at the server and a later return; the random ids are a parameter.
-- - Persister: tester1/persister.go, the Raft state and the snapshot, saved together. Bytes are
--   numbers.
-- - Raft: raft1/raft.go, one peer. The mutex is held over each handler, so each is a function from
--   state to state; an Option result is a Go panic (an index out of range). Terms and indices are
--   ints that do not overflow; -1 for "none" is an Option. State has the accessors of the log and
--   persistence (persist, readPersist, becomeFollower, Snapshot), and
--   State/Recovery that what is written is read back; Vote the ticker, startElection,
--   RequestVote and the handling of its replies; Append the handler AppendEntries, and Append/Merge
--   what its entries do to the log; Install the handler InstallSnapshot; Commit advanceCommit, and
--   Commit/Highest what it commits; Replicate Start, replicateTo and the handling of its replies;
--   Apply the applier, Kill and Make, and Apply/Order what the applier delivers. Loops over indices
--   recurse on the index. replicateTo and startElection unlock while an RPC is on its way, so each is
--   two steps: what is sent, and what a reply does. labgob's encoding of the persistent fields is a
--   parameter, Codec: decoding gives back what was encoded, and an encoding is not empty.
-- - Raft/Cluster: peers over a network that loses, delays and reorders RPCs, as a step relation. A
--   vote request is served at most once, as the network never runs a request twice; AppendEntries,
--   InstallSnapshot and their replies may hold anything at all. A peer may restart from its persister
--   at any step; a goroutine of an election that has been started may still hear its replies.
-- - Raft/Flat: a coding of the persistent fields by numbers, for the tests.
-- - Raft/Quiet and Raft/Cluster/Ballots and beside it: the lemmas on terms, votes and disks, and the
--   invariant of the votes that a cluster keeps.
-- - ShardCfg: shardkv1/shardcfg/shardcfg.go. A Go map of groups is a list of pairs, and its order of
--   iteration the list's; an array of shards is a list of twelve gids. log.Fatalf and a panic are the
--   result `none`. ShardCfg/Rebalance has analyze, least and Rebalance: its loop runs on fuel, 144
--   rounds for twelve shards, and each round moves one shard from the fullest to the emptiest group,
--   which lowers a measure (Measure); ShardCfg/Change has Join, Leave, JoinBalance and LeaveBalance, and
--   ShardCfg/Check CheckConfig. Sum, Count, Extremes and Sorted have the lemmas; the other children are
--   named for what they prove. hash/fnv's 32-bit FNV-1a is written out, as documented.
-- - Labrpc: labrpc/labrpc.go. Labrpc has the network's state and its operations, each one step under
--   its mutex; Labrpc/Server the servers, their services and dispatch, where a method with labgob's
--   coding around it is a function on bytes; Labrpc/Process the goroutine of processReq and the one that
--   runs its handler, as a step relation in which others call the network's operations and have requests
--   handled at any time, the random choices are choices of steps, and a handler is one step; every server
--   has objects of its own. Labrpc/Call is the caller's side, Call and Forward. Process/Once reads off a
--   run which handlers returned and which states it went through; Answers, Traces and Causes follow a
--   request to its answer; Process/Kv, Asked, Effects, Calls and Fates put key/value servers behind the
--   network, with labgob's coding of their messages as a parameter, Coding; Setup and Apart are about ends
--   and servers.
-- - RfServer: raft1/server.go, the service that the Raft tests run over a peer, with its log and its
--   snapshots; what it tells the tester is a list of calls, and labgob's coding of a snapshot a
--   parameter, SnapshotCodec. Recovery is about a snapshot and a restart; RfServer/Checker is the
--   tester's side in raft1/test.go, CheckLogs and nCommitted, with the comparison of commands as an
--   interface, Comparable.
-- - Labgob: labgob/labgob.go, the check of the types that are encoded. checkType recurses on fuel, one
--   call more than there are types, since every call but the last marks one. Types has what such a call
--   leaves, Checked that it ends. Default has checkDefault, on a value as a tree, since it looks no deeper
--   than three levels.
-- - Demux: tester1/demux, calls over one connection that are matched with their replies by tags. Demux has
--   the call map (callmap.go) and the state of the client (dmxclnt.go); Demux/Link the callers
--   (SendReceive), the reader and Close as interleaved steps, in which a write or the connection may fail
--   at any time and the server's answers are a parameter. Link/Invariant has what every state keeps while
--   fewer than 2 ^ 32 calls have been made, since a tag is a uint32; Parts, Calling, Moving and Reading
--   its lemmas and the steps that keep it, and Matched what follows.
-- - Tester: tester1. Tester/Group is group.go and srv.go: the ends between the servers of a group on the
--   network of Labrpc, with a panic as `none` and the random names of ends a parameter. Group/View is a
--   group as a test sees it, which connect and disconnect are traced to; Split is about Partition,
--   Dealing and Minority about MakePartition, Joined about ConnectAll, Fresh and Made about
--   makeSrvGrp. Tester/Clnt is clnts.go, the ends of a clerk: Allowed and Calling say when they are
--   enabled.
-- - Prelude: names, lists, maps and families that the parts share.
--
-- Not modelled: printing, sleeping, annotations and process start-up; the rest of raft1/test.go and of
-- tester1, and kvtest1, which start and stop processes, poll servers over time and hand histories to a
-- third-party checker; the server's side and the transport of tester1/demux and the proxies, which carry
-- calls between processes; the codings of labgob, which are those of encoding/gob and parameters here;
-- and the files that are empty templates (kvraft1, shardkv1 but for the configurations, mr). A retry's
-- delay has no effect on the state. MakeService finds the methods of an object by reflection, and String
-- and FromString of a configuration are JSON.
pub mod Prelude
pub mod Rpc
pub mod KvServer
pub mod KvModel
pub mod Clerk
pub mod Lock
pub mod Persister
pub mod Raft
pub mod ShardCfg
pub mod Labrpc
pub mod RfServer
pub mod Labgob
pub mod Demux
pub mod Tester
