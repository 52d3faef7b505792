-- ===== src/Labrpc/Process/Traces.antt =====
-- labrpc/labrpc.go: what is known of a run of processReq at each stage, and goes on to hold.
use linearizable_kv_store.Prelude.{ℕ, ◌≡◌, refl, ◌⊎◌, inl, inr, false, none, some}
use linearizable_kv_store.Labrpc.{ReqMsg, ReplyMsg, no_reply}
use linearizable_kv_store.Labrpc.Process.{
  Route, Stage, arrived, sending, waiting, checking, delayed, timing_out, replied, Env, Process,
  Step, Reach, begin, next,
}
use linearizable_kv_store.Labrpc.Process.Once.{Visited, ReadAt, Read, Died, Alive, Returned}

module _ {S : Type 0} {req : ReqMsg} {e : Env S} where
  -- The run read that the end was disabled, or connected to no server; or that the network was
  -- unreliable; or it read a server, and on the way that server was deleted or replaced, or the end disabled.
  pub data Failed {s : Process S} (r : Reach req e s) : Type 0 where
    no_server : Read r timing_out → Failed r
    unreliable : (route : Route) → Read r (sending route) → route.reliable ≡ false → Failed r
    died : (route : Route) → Read r (sending route) → Died r route → Failed r

  -- The run read a server, the handler ran on it and had this reply, and in some state after that the
  -- end was enabled and the server had not been deleted or replaced.
  pub record Answered {s : Process S} (r : Reach req e s) (reply : ReplyMsg) : Type 0 where
    pub route : Route
    pub found : Read r (sending route)
    pub ran_there : Returned r route.server reply
    pub alive : Alive r route reply

  pub later-Read :
      {s t : Process S} (r : Reach req e s) (st : Step req s t) (stage : Stage)
      → Read r stage
      → Read (next r st) stage
  unfolding ReadAt
  later-Read r st stage (x, at, q) = (x, inr at, q)

  pub later-Died :
      {s t : Process S} (r : Reach req e s) (st : Step req s t) (route : Route)
      → Died r route
      → Died (next r st) route
  unfolding Visited
  later-Died r st route (x, at, way, q) = (x, inr at, way, q)

  pub later-Returned :
      {s t : Process S} (r : Reach req e s) (st : Step req s t) (server : ℕ) (reply : ReplyMsg)
      → Returned r server reply
      → Returned (next r st) server reply
  unfolding Visited
  later-Returned r st server reply (x, rs, w, at, h, d) = (x, rs, w, inr at, h, d)

  pub later-Failed :
      {s t : Process S} (r : Reach req e s) (st : Step req s t) → Failed r → Failed (next r st)
  later-Failed r st (no_server x) = no_server (later-Read r st timing_out x)
  later-Failed r st (unreliable route x u) = unreliable route (later-Read r st (sending route) x) u
  later-Failed r st (died route x d) =
      died route (later-Read r st (sending route) x) (later-Died r st route d)

  pub later-Answered :
      {s t : Process S} (r : Reach req e s) (st : Step req s t) (reply : ReplyMsg)
      → Answered r reply
      → Answered (next r st) reply
  unfolding Visited
  later-Answered r st reply a = record {
    route = a.route;
    found = later-Read r st (sending a.route) a.found;
    ran_there = later-Returned r st a.route.server reply a.ran_there;
    alive = let (x, at, h, q) = a.alive in (x, inr at, h, q);
  }

  pub here : {s : Process S} (r : Reach req e s) → Visited r s
  unfolding Visited
  here begin = refl
  here (next r st) = inl refl

  -- What is known of the run in each stage.
  unfoldable pub Traced : {s : Process S} → Reach req e s → Stage → Type 0
  Traced r arrived = Unit
  Traced r (sending route) = Read r (sending route)
  Traced r (waiting route) = Read r (sending route)
  Traced r (checking route none) = Read r (sending route) × Died r route
  Traced r (checking route (some reply)) = Read r (sending route)
  Traced r (delayed reply) = Answered r reply
  Traced r timing_out = Read r timing_out
  Traced r (replied reply) = ((reply ≡ no_reply) × Failed r) ⊎ Answered r reply

  pub later-Traced :
      {s t : Process S} (r : Reach req e s) (st : Step req s t) (stage : Stage)
      → Traced r stage
      → Traced (next r st) stage
  unfolding Traced
  later-Traced r st arrived i = i
  later-Traced r st (sending route) i = later-Read r st (sending route) i
  later-Traced r st (waiting route) i = later-Read r st (sending route) i
  later-Traced r st (checking route none) i =
      (later-Read r st (sending route) i.0, later-Died r st route i.1)
  later-Traced r st (checking route (some reply)) i = later-Read r st (sending route) i
  later-Traced r st (delayed reply) i = later-Answered r st reply i
  later-Traced r st timing_out i = later-Read r st timing_out i
  later-Traced r st (replied reply) (inl (p, f)) = inl (p, later-Failed r st f)
  later-Traced r st (replied reply) (inr a) = inr (later-Answered r st reply a)
