-- ===== src/Labrpc/Process/Answers.antt =====
-- labrpc/labrpc.go: what each step of processReq keeps of a request's handler and its reply.
use linearizable_kv_store.Prelude.{
  ℕ, ◌+◌, ◌≤◌, ◌≡◌, refl, sym, ap, ◌∙◌, subst, ◌⊎◌, ◌++◌, inl, inr, String, Option, none, some,
  List, [], ◌∷◌, arith, Bool-cases,
}
use linearizable_kv_store.Prelude.Panic.{each, each-append}
use linearizable_kv_store.Labrpc.{ReqMsg, ReplyMsg, no_reply, EndnameInfo, read_endname_info}
use linearizable_kv_store.Labrpc.Process.{
  Route, Stage, arrived, sending, waiting, checking, delayed, timing_out, replied, Handler,
  not_started, started, finished, Env, Process, send_to, route_to, after_read, changes, handles,
  Step, others, reads, times_out, drops_request, executes, handler_returns, takes_reply, gives_up,
  refuses, drops_reply, delays_reply, replies, replies_late, Reach, begin, next,
}
use linearizable_kv_store.Labrpc.Process.Once.{
  Act, served, own, own_runs, act_req, play, acts_of, acts, returns,
}

-- The handler has been started on `server`.
unfoldable pub IsOn : ℕ → Handler → Type 0
IsOn server not_started = ⊥
IsOn server (started other) = other ≡ server
IsOn server (finished other reply) = other ≡ server

-- Where the handler is at each stage.
unfoldable pub Staged : Stage → Handler → Type 0
Staged arrived h = h ≡ not_started
Staged (sending route) h = h ≡ not_started
Staged (waiting route) h = IsOn route.server h
Staged (checking route none) h = IsOn route.server h
Staged (checking route (some reply)) h = h ≡ finished route.server reply
Staged (delayed reply) h = (server : ℕ) × (h ≡ finished server reply)
Staged timing_out h = h ≡ not_started
Staged (replied reply) h = (reply ≡ no_reply) ⊎ ((server : ℕ) × (h ≡ finished server reply))

IsOn-finished :
    (h : Handler) (a b : ℕ) (reply : ReplyMsg)
    → IsOn a h
    → h ≡ started b
    → IsOn a (finished b reply)
unfolding IsOn
IsOn-finished h a b reply i e = subst (λ h. IsOn a h) e i

-- After the reading of the network, the goroutine sends or waits for nothing.
pub send_to_cases :
    (name : Option String) (server : Option ℕ) (info : EndnameInfo)
    → (send_to name server info ≡ timing_out)
      ⊎ ((route : Route) × (send_to name server info ≡ sending route))
unfolding send_to
send_to_cases none server info = inl refl
send_to_cases (some name) none info = inl refl
send_to_cases (some name) (some server) info = elim (Bool-cases info.enabled) [
  | inl on ↦ inr (route_to name server info, rw on refl)
  | inr off ↦ inl (rw off refl)
]

Staged-after_read :
    (info : EndnameInfo) (h : Handler) → h ≡ not_started → Staged (after_read info) h
unfolding Staged
Staged-after_read info h p = elim (send_to_cases info.servername info.server info) [
  | inl q ↦ subst (λ stage. Staged stage h) (sym q) p
  | inr (route, q) ↦ subst (λ stage. Staged stage h) (sym q) p
]

-- The handler's return leaves the stage as it was.
Staged-return :
    (stage : Stage) (h : Handler) (server : ℕ) (reply : ReplyMsg)
    → Staged stage h
    → h ≡ started server
    → Staged stage (finished server reply)
unfolding Staged
Staged-return arrived h server reply i p = absurd (cc)
Staged-return (sending route) h server reply i p = absurd (cc)
Staged-return (waiting route) h server reply i p = IsOn-finished h route.server server reply i p
Staged-return (checking route none) h server reply i p =
    IsOn-finished h route.server server reply i p
Staged-return (checking route (some r)) h server reply i p = absurd (cc)
Staged-return (delayed r) h server reply (other, i) p = absurd (cc)
Staged-return timing_out h server reply i p = absurd (cc)
Staged-return (replied r) h server reply (inl i) p = inl i
Staged-return (replied r) h server reply (inr (other, i)) p = absurd (cc)

module _ {S : Type 0} {req : ReqMsg} where
  step-Staged :
      {s t : Process S} → Step req s t → Staged s.stage s.handler → Staged t.stage t.handler
  unfolding Staged
  step-Staged (others o) i = i
  step-Staged {s} (reads p) i =
      Staged-after_read (read_endname_info req.endname s.env.net) s.handler
        (subst (λ stage. Staged stage s.handler) p i)
  step-Staged (times_out p) i = inl refl
  step-Staged (drops_request route p u) i = inl refl
  step-Staged (executes route p) i = unfold IsOn in refl
  step-Staged {s} (handler_returns server {reply = reply} p d) i =
      Staged-return s.stage s.handler server reply i p
  step-Staged (takes_reply route reply p h) i = h
  step-Staged {s} (gives_up route p dead) i = subst (λ stage. Staged stage s.handler) p i
  step-Staged (refuses route reply p dead) i = inl refl
  step-Staged (drops_reply route reply p alive u) i = inl refl
  step-Staged {s} (delays_reply route reply p alive l) i =
      (route.server, subst (λ stage. Staged stage s.handler) p i)
  step-Staged {s} (replies route reply p alive) i =
      inr (route.server, subst (λ stage. Staged stage s.handler) p i)
  step-Staged {s} (replies_late reply p) i = inr (subst (λ stage. Staged stage s.handler) p i)

  pub reach-Staged : {e : Env S} {s : Process S} → Reach req e s → Staged s.stage s.handler
  unfolding Staged
  reach-Staged begin = refl
  reach-Staged (next r st) = step-Staged st (reach-Staged r)

returns_le : (h : Handler) → returns h ≤ 1
unfolding returns
returns_le not_started = omega arith
returns_le (started server) = omega arith
returns_le (finished server reply) = omega arith

own_runs-append : (xs ys : List Act) → own_runs (xs ++ ys) ≡ own_runs xs + own_runs ys
unfolding own_runs
own_runs-append [] ys = omega arith
own_runs-append (served q server ∷ xs) ys = own_runs-append xs ys
own_runs-append (own server ∷ xs) ys = ground (arith, own_runs-append xs ys)

module _ {S : Type 0} {req : ReqMsg} where
  step-own_runs :
      {s t : Process S} (st : Step req s t)
      → Staged s.stage s.handler
      → returns t.handler ≡ returns s.handler + own_runs (acts_of st)
  unfolding acts_of own_runs returns Staged
  step-own_runs (others (changes c)) i = omega arith
  step-own_runs (others (handles q server d)) i = omega arith
  step-own_runs {s} (executes route p) i =
      sym (ap returns (subst (λ stage. Staged stage s.handler) p i)) ∙ omega arith
  step-own_runs (handler_returns server p d) i = ap (λ h. returns h + 1) (sym p)
  step-own_runs _ i = omega arith

  pub reach-own_runs :
      {e : Env S} {s : Process S} (r : Reach req e s) → own_runs (acts r) ≡ returns s.handler
  unfolding acts own_runs returns
  reach-own_runs begin = refl
  reach-own_runs (next r st) =
      own_runs-append (acts r) (acts_of st)
      ∙ omega (arith, reach-own_runs r, step-own_runs st (reach-Staged r))

  step-play :
      {s t : Process S} (st : Step req s t)
      → each (play req) (acts_of st) (s.env.heap, s.env.world) ≡ some (t.env.heap, t.env.world)
  unfolding acts_of play act_req
  step-play (others (changes c)) = refl
  step-play (others (handles q server d)) = rw d refl
  step-play (handler_returns server p d) = rw d refl
  step-play _ = refl

  reach-play :
      {e : Env S} {s : Process S} (r : Reach req e s)
      → each (play req) (acts r) (e.heap, e.world) ≡ some (s.env.heap, s.env.world)
  unfolding acts
  reach-play begin = refl
  reach-play {e} (next r st) =
      each-append (play req) (acts r) (acts_of st) (e.heap, e.world)
      ∙ rw (reach-play r) (step-play st)

  -- What has become of the servers and their objects is what the handlers that returned on the way of
  -- a request made of them, in their order, and of these at most one is the request's own, whatever
  -- happens to it, be it lost, delayed, given up or answered.
  pub reach-AtMostOnce :
      {e : Env S} {s : Process S} (r : Reach req e s)
      → (each (play req) (acts r) (e.heap, e.world) ≡ some (s.env.heap, s.env.world))
        × (own_runs (acts r) ≤ 1)
  reach-AtMostOnce {e} {s} r =
      (reach-play r, subst (λ n. n ≤ 1) (sym (reach-own_runs r)) (returns_le s.handler))
