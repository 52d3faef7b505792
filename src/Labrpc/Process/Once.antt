-- ===== src/Labrpc/Process/Once.antt =====
-- labrpc/labrpc.go: what a run of processReq did, read off the run: the handlers that returned, the
-- states it went through, and the moment it read the network.
use linearizable_kv_store.Prelude.{ℕ, ◌+◌, ◌≡◌, ◌⊎◌, ◌++◌, true, false, Option, some, List, [], ◌∷◌}
use linearizable_kv_store.Prelude.Family.{update}
use linearizable_kv_store.Prelude.Panic.{◌>>=◌}
use linearizable_kv_store.Labrpc.{ReqMsg, ReplyMsg, read_endname_info}
use linearizable_kv_store.Labrpc.Server.{Server, dispatch}
use linearizable_kv_store.Labrpc.Process.{
  Route, Stage, Handler, not_started, started, finished, waiting, checking, Env, Process, sent,
  handles, Step, others, reads, handler_returns, after_read, is_dead, Reach, begin, next,
}

-- A handler that has returned: of a request of others, or of this one.
pub data Act : Type 0 where
  served : ReqMsg → ℕ → Act
  own : ℕ → Act

unfoldable pub own_runs : List Act → ℕ
own_runs [] = 0
own_runs (served q server ∷ later) = own_runs later
own_runs (own server ∷ later) = 1 + own_runs later

unfoldable pub act_req : ReqMsg → Act → ReqMsg × ℕ
act_req req (served q server) = (q, server)
act_req req (own server) = (req, server)

-- Between the reading and the answer.
unfoldable pub OnWay : Route → Stage → Type 0
OnWay route (waiting other) = other ≡ route
OnWay route (checking other reply) = other ≡ route
OnWay route _ = ⊥

module _ {S : Type 0} where
  -- The servers and their objects, when a handler has run on one of them.
  unfoldable pub play : ReqMsg → Act → (ℕ → Server S) × (ℕ → S) → Option ((ℕ → Server S) × (ℕ → S))
  unfolding act_req
  play req a (heap, world) =
      let (q, server) = act_req req a in
      dispatch q (heap server) (world server) >>= λ (rs, w, _).
      some (update heap server rs, update world server w)

  unfoldable pub acts_of : {req : ReqMsg} {s t : Process S} → Step req s t → List Act
  acts_of (others (handles q server d)) = served q server ∷ []
  acts_of (handler_returns server h d) = own server ∷ []
  acts_of _ = []

  unfoldable pub IsRead : {req : ReqMsg} {s t : Process S} → Step req s t → Type 0
  IsRead (reads p) = Unit
  IsRead _ = ⊥

  module _ {req : ReqMsg} {e : Env S} where
    -- The handlers that returned in the run, in their order.
    unfoldable pub acts : {s : Process S} → Reach req e s → List Act
    unfolding acts_of
    acts begin = []
    acts (next r st) = acts r ++ acts_of st

    -- The run went through this state.
    unfoldable pub Visited : {s : Process S} → Reach req e s → Process S → Type 0
    Visited begin x = x ≡ sent e
    Visited (next {t = t} r st) x = (x ≡ t) ⊎ Visited r x

    -- The run read the network in this state.
    unfoldable pub ReadAt : {s : Process S} → Reach req e s → Process S → Type 0
    unfolding IsRead
    ReadAt begin x = ⊥
    ReadAt (next {s = s} r st) x = ((x ≡ s) × IsRead st) ⊎ ReadAt r x

    -- What the run read made it go on like this.
    abbrev pub Read : {s : Process S} → Reach req e s → Stage → Type 0
    Read r stage =
        (x : Process S) × ReadAt r x
        × (after_read (read_endname_info req.endname x.env.net) ≡ stage)

    -- In some state on the way the server of the route was dead for the request.
    abbrev pub Died : {s : Process S} → Reach req e s → Route → Type 0
    Died r route =
        (x : Process S) × Visited r x
        × OnWay route x.stage
        × (is_dead req.endname route x.env.net ≡ true)

    -- In some state after the handler's return it was not.
    abbrev pub Alive : {s : Process S} → Reach req e s → Route → ReplyMsg → Type 0
    Alive r route reply =
        (x : Process S) × Visited r x
        × (x.handler ≡ finished route.server reply)
        × (is_dead req.endname route x.env.net ≡ false)

    -- The handler was run in some state on this server, and its reply was this.
    abbrev pub Returned : {s : Process S} → Reach req e s → ℕ → ReplyMsg → Type 0
    Returned r server reply =
        (x : Process S) × (rs : Server S) × (w : S) × Visited r x
        × (x.handler ≡ started server)
        × (dispatch req (x.env.heap server) (x.env.world server) ≡ some (rs, w, reply))

-- How often a handler has returned.
unfoldable pub returns : Handler → ℕ
returns not_started = 0
returns (started server) = 0
returns (finished server reply) = 1
