-- ===== src/Labrpc/Process/Causes.antt =====
-- labrpc/labrpc.go: why processReq answers as it does: with the handler's reply, or without one.
use linearizable_kv_store.Labrpc.Process.Traces.{
  Failed, no_server, unreliable, died, Answered, later-Read, later-Died, later-Returned,
  later-Failed, later-Answered, here, Traced, later-Traced,
}
use linearizable_kv_store.Prelude.{
  ◌≡◌, refl, sym, ap, ◌∙◌, subst, ◌⊎◌, inl, inr, Bool, true, false, Option, none, some,
}
use mathlib.Core.Bool.{false≢true}
use linearizable_kv_store.Labrpc.{ReqMsg, ReplyMsg, no_reply, read_endname_info}
use linearizable_kv_store.Labrpc.Process.{
  Route, Stage, arrived, sending, waiting, checking, delayed, timing_out, replied, Handler,
  not_started, started, finished, Env, Process, after_read, is_dead, refused, Step, others, reads,
  times_out, drops_request, executes, handler_returns, takes_reply, gives_up, refuses, drops_reply,
  delays_reply, replies, replies_late, Reach, begin, next,
}
use linearizable_kv_store.Labrpc.Process.Once.{
  own_runs, acts, ReadAt, IsRead, OnWay, Returned, returns,
}
use linearizable_kv_store.Labrpc.Process.Answers.{
  Staged, send_to_cases, reach-Staged, reach-own_runs,
}

refused-true :
    (reply : Option ReplyMsg) (dead : Bool)
    → refused reply dead ≡ true
    → (reply ≡ none) ⊎ (dead ≡ true)
unfolding refused
refused-true none dead h = inl refl
refused-true (some reply) dead h = inr h

refused-false : (reply : ReplyMsg) (dead : Bool) → refused (some reply) dead ≡ false → dead ≡ false
unfolding refused
refused-false reply dead h = h

OnWay-waiting : (route : Route) (stage : Stage) → stage ≡ waiting route → OnWay route stage
unfolding OnWay
OnWay-waiting route stage p = subst (OnWay route) (sym p) refl

OnWay-checking :
    (route : Route) (reply : Option ReplyMsg) (stage : Stage)
    → stage ≡ checking route reply
    → OnWay route stage
unfolding OnWay
OnWay-checking route reply stage p = subst (OnWay route) (sym p) refl

failed_not_ok : (reply : ReplyMsg) → reply.ok ≡ true → reply ≡ no_reply → ⊥
failed_not_ok reply ok h = false≢true (sym (ap (λ (m : ReplyMsg). m.ok) h) ∙ ok)

replied-returns :
    (reply : ReplyMsg) (h : Handler) → reply.ok ≡ true → Staged (replied reply) h → returns h ≡ 1
unfolding Staged returns
replied-returns reply h ok (inl p) = absurd (failed_not_ok reply ok p)
replied-returns reply h ok (inr (server, p)) = ap returns p

module _ {S : Type 0} {req : ReqMsg} {e : Env S} where
  -- A handler that has returned was run.
  HandlerRan : {s : Process S} → Reach req e s → Handler → Type 0
  HandlerRan r (finished server reply) = Returned r server reply
  HandlerRan r _ = Unit

  later-HandlerRan :
      {s t : Process S} (r : Reach req e s) (st : Step req s t) (h : Handler)
      → HandlerRan r h
      → HandlerRan (next r st) h
  unfolding HandlerRan
  later-HandlerRan r st not_started i = i
  later-HandlerRan r st (started server) i = i
  later-HandlerRan r st (finished server reply) i = later-Returned r st server reply i

  step-HandlerRan :
      {s t : Process S} (r : Reach req e s) (st : Step req s t)
      → HandlerRan r s.handler
      → HandlerRan (next r st) t.handler
  unfolding HandlerRan
  step-HandlerRan {s} r (handler_returns server {rs} {world} {reply} p d) i =
      later-Returned r (handler_returns server p d) server reply (s, rs, world, here r, p, d)
  step-HandlerRan r (executes route p) i = tt
  step-HandlerRan {s} r (others o) i = later-HandlerRan r (others o) s.handler i
  step-HandlerRan {s} r (reads p) i = later-HandlerRan r (reads p) s.handler i
  step-HandlerRan {s} r (times_out p) i = later-HandlerRan r (times_out p) s.handler i
  step-HandlerRan {s} r (drops_request route p u) i =
      later-HandlerRan r (drops_request route p u) s.handler i
  step-HandlerRan {s} r (takes_reply route reply p h) i =
      later-HandlerRan r (takes_reply route reply p h) s.handler i
  step-HandlerRan {s} r (gives_up route p dead) i =
      later-HandlerRan r (gives_up route p dead) s.handler i
  step-HandlerRan {s} r (refuses route reply p dead) i =
      later-HandlerRan r (refuses route reply p dead) s.handler i
  step-HandlerRan {s} r (drops_reply route reply p alive u) i =
      later-HandlerRan r (drops_reply route reply p alive u) s.handler i
  step-HandlerRan {s} r (delays_reply route reply p alive l) i =
      later-HandlerRan r (delays_reply route reply p alive l) s.handler i
  step-HandlerRan {s} r (replies route reply p alive) i =
      later-HandlerRan r (replies route reply p alive) s.handler i
  step-HandlerRan {s} r (replies_late reply p) i =
      later-HandlerRan r (replies_late reply p) s.handler i

  reach-HandlerRan : {s : Process S} (r : Reach req e s) → HandlerRan r s.handler
  reach-HandlerRan begin = unfold HandlerRan in tt
  reach-HandlerRan (next r st) = step-HandlerRan r st (reach-HandlerRan r)

  -- In a state that is known, at its stage.
  known :
      {s : Process S} (r : Reach req e s) (stage : Stage)
      → s.stage ≡ stage
      → Traced r s.stage
      → Traced r stage
  known r stage p i = subst (Traced r) p i

  -- After the reading, the goroutine sends or waits for nothing.
  Traced-reads :
      {s : Process S} (r : Reach req e s) (p : s.stage ≡ arrived)
      → Traced (next r (reads p)) (after_read (read_endname_info req.endname s.env.net))
  unfolding Traced ReadAt IsRead
  Traced-reads {s} r p =
      let info = read_endname_info req.endname s.env.net in
      elim (send_to_cases info.servername info.server info) [
        | inl q ↦ subst (Traced (next r (reads p))) (sym q) (s, inl (refl, tt), q)
        | inr (route, q) ↦ subst (Traced (next r (reads p))) (sym q) (s, inl (refl, tt), q)
      ]

  -- A reply that has passed the check.
  passed :
      {s : Process S} (r : Reach req e s) (route : Route) (reply : ReplyMsg)
      → s.stage ≡ checking route (some reply)
      → refused (some reply) (is_dead req.endname route s.env.net) ≡ false
      → Traced r s.stage
      → Answered r reply
  unfolding Traced
  passed {s} r route reply p alive i =
      let done : s.handler ≡ finished route.server reply =
        unfold Staged in subst (λ stage. Staged stage s.handler) p (reach-Staged r) in
      record {
        route = route;
        found = known r (checking route (some reply)) p i;
        ran_there = unfold HandlerRan in subst (HandlerRan r) done (reach-HandlerRan r);
        alive = (s, here r, done, refused-false reply _ alive);
      }

  checked :
      {s : Process S} (r : Reach req e s) (route : Route) (reply : Option ReplyMsg)
      → s.stage ≡ checking route reply
      → (reply ≡ none) ⊎ (is_dead req.endname route s.env.net ≡ true)
      → Traced r (checking route reply)
      → Failed r
  unfolding Traced
  checked r route none p why (found, dead) = died route found dead
  checked r route (some reply) p (inl q) found = absurd (cc)
  checked {s} r route (some reply) p (inr dead) found =
      died route found (s, here r, OnWay-checking route (some reply) s.stage p, dead)

  step-Traced :
      {s t : Process S} (r : Reach req e s) (st : Step req s t)
      → Traced r s.stage
      → Traced (next r st) t.stage
  unfolding Traced
  step-Traced {s} r (others o) i = later-Traced r (others o) s.stage i
  step-Traced r (reads p) i = Traced-reads r p
  step-Traced r (times_out p) i =
      inl (refl, later-Failed r (times_out p) (no_server (known r timing_out p i)))
  step-Traced r (drops_request route p u) i = inl (
    refl,
    later-Failed r (drops_request route p u) (unreliable route (known r (sending route) p i) u),
  )
  step-Traced r (executes route p) i =
      later-Read r (executes route p) (sending route) (known r (sending route) p i)
  step-Traced {s} r (handler_returns server p d) i =
      later-Traced r (handler_returns server p d) s.stage i
  step-Traced r (takes_reply route reply p h) i =
      later-Read r (takes_reply route reply p h) (sending route) (known r (waiting route) p i)
  step-Traced {s} r (gives_up route p dead) i = (
    later-Read r (gives_up route p dead) (sending route) (known r (waiting route) p i),
    later-Died r (gives_up route p dead) route (s, here r, OnWay-waiting route s.stage p, dead),
  )
  step-Traced r (refuses route reply p why) i = inl (
    refl,
    later-Failed r (refuses route reply p why)
        (checked r route reply p (refused-true reply _ why) (known r (checking route reply) p i)),
  )
  step-Traced r (drops_reply route reply p alive u) i = inl (
    refl,
    later-Failed r (drops_reply route reply p alive u)
        (unreliable route (known r (checking route (some reply)) p i) u),
  )
  step-Traced r (delays_reply route reply p alive l) i =
      later-Answered r (delays_reply route reply p alive l) reply (passed r route reply p alive i)
  step-Traced r (replies route reply p alive) i =
      inr (later-Answered r (replies route reply p alive) reply (passed r route reply p alive i))
  step-Traced r (replies_late reply p) i =
      inr (later-Answered r (replies_late reply p) reply (known r (delayed reply) p i))

  reach-Traced : {s : Process S} (r : Reach req e s) → Traced r s.stage
  reach-Traced begin = unfold Traced in tt
  reach-Traced (next r st) = step-Traced r st (reach-Traced r)

  -- A request that has been answered was answered with its handler's reply: the run read a server,
  -- the handler returned that reply there, and in some state after that the end was enabled and
  -- the server had not been deleted or replaced. Or it was answered with a failure that has a
  -- cause in the run: it read that the end was disabled or led to no server, or that the network
  -- was unreliable; or it read a server, and in some state on the way that server had been deleted
  -- or replaced or the end disabled.
  pub replied-Failed :
      {s : Process S} (r : Reach req e s) (reply : ReplyMsg)
      → s.stage ≡ replied reply
      → ((reply ≡ no_reply) × Failed r) ⊎ Answered r reply
  unfolding Traced
  replied-Failed r reply p = known r (replied reply) p (reach-Traced r)

  -- A run of a request that is answered with ok has run the request's handler exactly once, on the server that the
  -- run read; the answer is what the handler returned there; and in some state of the run after
  -- that return the end was enabled and the server had not been deleted or replaced.
  pub replied-Answered :
      {s : Process S} (r : Reach req e s) (reply : ReplyMsg)
      → s.stage ≡ replied reply
      → reply.ok ≡ true
      → (own_runs (acts r) ≡ 1) × Answered r reply
  replied-Answered {s} r reply p ok = (
    reach-own_runs r
        ∙ replied-returns reply s.handler ok
            (subst (λ stage. Staged stage s.handler) p (reach-Staged r)),
    elim (replied-Failed r reply p) [
      | inl (failed, _) ↦ absurd (failed_not_ok reply ok failed)
      | inr a ↦ a
    ],
  )
