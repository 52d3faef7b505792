-- ===== src/Labrpc/Process.antt =====
-- labrpc/labrpc.go: processReq, which takes one request to its server and a reply back. Its sleeps and
-- timers let anything else happen in between, its random numbers choose among steps, and the handler
-- runs in a goroutine of its own, which goes on when the waiting has been given up.
pub mod Once
pub mod Answers
pub mod Kv
pub mod Asked
pub mod Effects
pub mod Calls
pub mod Fates
pub mod Traces
pub mod Causes
use linearizable_kv_store.Prelude.{
  ℕ, ◌+◌, ◌%◌, ◌^◌, ◌≡◌, Bool, true, false, Option, none, some, List, String, if◌then◌else◌, length,
}
use linearizable_kv_store.Prelude.Family.{update}
use linearizable_kv_store.Labrpc.{
  ReqMsg, ReplyMsg, no_reply, Network, EndnameInfo, read_endname_info, is_server_dead, ClientEnd,
  accept, cleanup, set_reliable, set_long_reordering, set_long_delays, make_end, delete_end,
  add_server, delete_server, connect, enable,
}
use linearizable_kv_store.Labrpc.Server.{Server, dispatch}

-- What was read of the network when the request arrived.
pub record Route : Type 0 where
  pub servername : String
  pub server : ℕ
  pub reliable : Bool
  pub long_reordering : Bool

-- Where the goroutine stands. `checking` is after the wait, with the reply if there was one, and
-- `delayed` holds a reply until its timer fires.
pub data Stage : Type 0 where
  arrived : Stage
  sending : Route → Stage
  waiting : Route → Stage
  checking : Route → Option ReplyMsg → Stage
  delayed : ReplyMsg → Stage
  timing_out : Stage
  replied : ReplyMsg → Stage

-- The goroutine that runs the handler on the server it was given, and the reply it has then.
pub data Handler : Type 0 where
  not_started : Handler
  started : ℕ → Handler
  finished : ℕ → ReplyMsg → Handler

-- Pointers to servers index the heap; `world` has, for each server, the objects that its handlers belong to.
pub record Env (S : Type 0) : Type 0 where
  pub net : Network
  pub heap : ℕ → Server S
  pub world : ℕ → S

pub record Process (S : Type 0) : Type 0 where
  pub env : Env S
  pub stage : Stage
  pub handler : Handler

abbrev pub route_to : String → ℕ → EndnameInfo → Route
route_to servername server info = record {
  servername = servername;
  server = server;
  reliable = info.reliable;
  long_reordering = info.long_reordering;
}

-- enabled && servername != nil && server != nil
unfoldable pub send_to : Option String → Option ℕ → EndnameInfo → Stage
send_to (some servername) (some server) info =
    if info.enabled then sending (route_to servername server info) else timing_out
send_to _ _ info = timing_out

abbrev pub after_read : EndnameInfo → Stage
after_read info = send_to info.servername info.server info

abbrev pub is_dead : String → Route → Network → Bool
is_dead endname route rn = is_server_dead endname route.servername route.server rn

-- replyOK == false || serverDead == true
unfoldable pub refused : Option ReplyMsg → Bool → Bool
refused none dead = true
refused (some reply) dead = dead

unfoldable pub count_reply : ReplyMsg → Network → Network
count_reply reply rn = record rn { bytes = (rn.bytes + length reply.reply) % 2 ^ 64 }

-- What is done to the network on the way of a request: its operations, and what other requests count.
pub data Changes (rn : Network) : Network → Type 0 where
  accepts : (req : ReqMsg) → Changes rn (accept req rn)
  counts_reply : (reply : ReplyMsg) → Changes rn (count_reply reply rn)
  cleans_up : Changes rn (cleanup rn)
  sets_reliable : (b : Bool) → Changes rn (set_reliable b rn)
  sets_long_reordering : (b : Bool) → Changes rn (set_long_reordering b rn)
  sets_long_delays : (b : Bool) → Changes rn (set_long_delays b rn)
  makes_end :
      (endname : String) {rn' : Network} {e : ClientEnd}
      → make_end endname rn ≡ some (rn', e)
      → Changes rn rn'
  deletes_end :
      (endname : String) {rn' : Network} → delete_end endname rn ≡ some rn' → Changes rn rn'
  adds_server : (servername : String) (server : ℕ) → Changes rn (add_server servername server rn)
  deletes_server : (servername : String) → Changes rn (delete_server servername rn)
  connects : (endname servername : String) → Changes rn (connect endname servername rn)
  enables : (endname : String) (b : Bool) → Changes rn (enable endname b rn)

module _ {S : Type 0} where
  abbrev pub sent : Env S → Process S
  sent env = record { env = env; stage = arrived; handler = not_started }

  abbrev pub ran : Env S → ℕ → Server S → S → Env S
  ran env server rs world = record env {
    heap = update env.heap server rs;
    world = update env.world server world;
  }

  -- What others do meanwhile: a change to the network, or the handling of another request, which may
  -- have the same contents as this one.
  pub data Others (env : Env S) : Env S → Type 0 where
    changes : {rn : Network} → Changes env.net rn → Others env (record env { net = rn })
    handles :
        (req : ReqMsg) (server : ℕ) {rs : Server S} {world : S} {reply : ReplyMsg}
        → dispatch req (env.heap server) (env.world server) ≡ some (rs, world, reply)
        → Others env (ran env server rs world)

  pub data Step (req : ReqMsg) (s : Process S) : Process S → Type 0 where
    others : {env : Env S} → Others s.env env → Step req s (record s { env = env })
    reads :
        s.stage ≡ arrived
        → Step req s (record s { stage = after_read (read_endname_info req.endname s.env.net) })
    times_out : s.stage ≡ timing_out → Step req s (record s { stage = replied no_reply })
    drops_request :
        (route : Route)
        → s.stage ≡ sending route
        → route.reliable ≡ false
        → Step req s (record s { stage = replied no_reply })
    executes :
        (route : Route)
        → s.stage ≡ sending route
        → Step req s (record s { stage = waiting route; handler = started route.server })
    handler_returns :
        (server : ℕ) {rs : Server S} {world : S} {reply : ReplyMsg}
        → s.handler ≡ started server
        → dispatch req (s.env.heap server) (s.env.world server) ≡ some (rs, world, reply)
        → Step req s (record s { env = ran s.env server rs world; handler = finished server reply })
    takes_reply :
        (route : Route) (reply : ReplyMsg)
        → s.stage ≡ waiting route
        → s.handler ≡ finished route.server reply
        → Step req s (record s { stage = checking route (some reply) })
    gives_up :
        (route : Route)
        → s.stage ≡ waiting route
        → is_dead req.endname route s.env.net ≡ true
        → Step req s (record s { stage = checking route none })
    refuses :
        (route : Route) (reply : Option ReplyMsg)
        → s.stage ≡ checking route reply
        → refused reply (is_dead req.endname route s.env.net) ≡ true
        → Step req s (record s { stage = replied no_reply })
    drops_reply :
        (route : Route) (reply : ReplyMsg)
        → s.stage ≡ checking route (some reply)
        → refused (some reply) (is_dead req.endname route s.env.net) ≡ false
        → route.reliable ≡ false
        → Step req s (record s { stage = replied no_reply })
    delays_reply :
        (route : Route) (reply : ReplyMsg)
        → s.stage ≡ checking route (some reply)
        → refused (some reply) (is_dead req.endname route s.env.net) ≡ false
        → route.long_reordering ≡ true
        → Step req s (record s { stage = delayed reply })
    replies :
        (route : Route) (reply : ReplyMsg)
        → s.stage ≡ checking route (some reply)
        → refused (some reply) (is_dead req.endname route s.env.net) ≡ false
        → Step req s (record s {
          env = record s.env { net = count_reply reply s.env.net };
          stage = replied reply;
        })
    replies_late :
        (reply : ReplyMsg)
        → s.stage ≡ delayed reply
        → Step req s (record s {
          env = record s.env { net = count_reply reply s.env.net };
          stage = replied reply;
        })

  pub data Reach (req : ReqMsg) (env : Env S) : Process S → Type 0 where
    begin : Reach req env (sent env)
    next : {s t : Process S} → Reach req env s → Step req s t → Reach req env t
