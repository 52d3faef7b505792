-- ===== src/Labrpc/Process/Fates.antt =====
-- labrpc/labrpc.go with kvsrv1/server.go behind it: what the network can do with a Put while others
-- do nothing.
use mathlib.Core.Option.{some-injective, none-ne-some}
use mathlib.Core.Bool.{false≢true}
use linearizable_kv_store.Prelude.{
  ℕ, ◌≡◌, refl, sym, ap, ◌∙◌, inl, inr, String, ◌||◌, not, Bool, true, false, Option, none, some,
  Bool-cases, ==_iff, ◌==◌, ◌⊎◌,
}
use linearizable_kv_store.Prelude.Family.{update}
use linearizable_kv_store.Rpc.{PutArgs, zero_put_reply}
use linearizable_kv_store.KvServer.{KvServer, put}
use linearizable_kv_store.Clerk.{Fate, lost_request, lost_reply, delivered, call_put}
use linearizable_kv_store.Labrpc.{
  ReqMsg, ReplyMsg, Network, EndnameInfo, read_endname_info, is_server_dead, differs, server_of,
  or_nil, or_false,
}
use linearizable_kv_store.Labrpc.Server.{dispatch}
use linearizable_kv_store.Labrpc.Process.{
  Route, Stage, sending, checking, timing_out, replied, Env, Process, Step, others, send_to,
  route_to, after_read, is_dead, refused, reads, drops_request, executes, handler_returns,
  takes_reply, drops_reply, replies, Reach, begin, next,
}
use linearizable_kv_store.Labrpc.Process.Kv.{
  AllKv, answer, Coding, put_req, put_answer, dispatch-put,
}

route_of : Stage → Option Route
route_of (sending route) = some route
route_of _ = none

send_to-on :
    (name : String) (server : ℕ) (info : EndnameInfo)
    → info.enabled ≡ true
    → send_to (some name) (some server) info ≡ sending (route_to name server info)
unfolding send_to
send_to-on name server info h = rw h refl

send_to-off :
    (name : String) (server : ℕ) (info : EndnameInfo)
    → info.enabled ≡ false
    → send_to (some name) (some server) info ≡ timing_out
unfolding send_to
send_to-off name server info h = rw h refl

send_to-sending :
    (name : Option String) (server : Option ℕ) (info : EndnameInfo) (route : Route)
    → send_to name server info ≡ sending route
    → (name ≡ some route.servername) × (server ≡ some route.server) × (info.enabled ≡ true)
unfolding send_to route_of
send_to-sending none server info route h = absurd (none-ne-some _ (ap route_of h))
send_to-sending (some name) none info route h = absurd (none-ne-some _ (ap route_of h))
send_to-sending (some name) (some server) info route h = elim (Bool-cases info.enabled) [
  | inl on ↦
      let same =
        some-injective _ route
          (ap route_of (sym (send_to-on name server info on)) ∙ ap route_of h) in
      (ap (λ (r : Route). some r.servername) same, ap (λ (r : Route). some r.server) same, on)
  | inr off ↦
      absurd
        (none-ne-some route (ap route_of (sym (send_to-off name server info off)) ∙ ap route_of h))
]

same-alive :
    (enabled : Bool) (found : Option ℕ) (server : ℕ)
    → enabled ≡ true
    → found ≡ some server
    → (not enabled || differs found server) ≡ false
same-alive enabled found server on h = rw (on, h) (rw ((==_iff server server).1 refl) refl)

-- A server that has just been read is not dead.
pub sending-alive :
    (endname : String) (route : Route) (rn : Network)
    → after_read (read_endname_info endname rn) ≡ sending route
    → is_dead endname route rn ≡ false
unfolding is_server_dead read_endname_info
sending-alive endname route rn h =
    let (name, server, on) = send_to-sending _ _ (read_endname_info endname rn) route h in
    let found : or_nil (rn.servers route.servername) ≡ some route.server =
      sym (ap (server_of rn) name) ∙ server in
    same-alive (or_false (rn.enabled endname)) (or_nil (rn.servers route.servername)) route.server
      on found

refused-passed : (reply : ReplyMsg) (dead : Bool) → dead ≡ false → refused (some reply) dead ≡ false
unfolding refused
refused-passed reply dead h = h

is_lost : Fate → Bool
is_lost delivered = false
is_lost _ = true

unreliable_for :
    (fate : Fate) {reliable : Bool}
    → is_lost fate ≡ true
    → (fate ≡ delivered) ⊎ (reliable ≡ false)
    → reliable ≡ false
unfolding is_lost
unreliable_for fate lost (inl p) = absurd (false≢true (sym (ap is_lost p) ∙ lost))
unreliable_for fate lost (inr p) = p

module _ {S : Type 0} {req : ReqMsg} where
  -- A step of the request itself.
  unfoldable pub IsOwn : {s t : Process S} → Step req s t → Type 0
  IsOwn (others o) = ⊥
  IsOwn _ = Unit

  -- A run in which others do nothing.
  unfoldable pub Alone : {e : Env S} {s : Process S} → Reach req e s → Type 0
  unfolding IsOwn
  Alone begin = Unit
  Alone (next r st) = Alone r × IsOwn st

update_same : {A : Type 0} (f : ℕ → A) (i j : ℕ) → f j ≡ update f i (f i) j
update_same f i j = elim (Bool-cases (i == j)) [
  | inl p ↦ rw p (ap f (sym ((==_iff i j).0 p)))
  | inr p ↦ rw p refl
]

module _ (coding : Coding) where
  -- The request's handler, run at once.
  handled :
      (endname : String) (args : PutArgs) (e : Env KvServer) (route : Route)
      → AllKv coding e
      → after_read (read_endname_info endname e.net) ≡ sending route
      → (s : Process KvServer) × (r : Reach (put_req coding endname args) e s) × Alone r
        × (s.stage
            ≡ checking route
                (some (put_answer coding (put (e.world route.server) args zero_put_reply).1)))
        × (s.env.world
            ≡ update e.world route.server (put (e.world route.server) args zero_put_reply).0)
        × (is_dead endname route s.env.net ≡ false)
  unfolding Alone IsOwn
  handled endname args e route kv h =
      let (n, at) = kv route.server in
      let w = e.world route.server in
      let run =
        ap (λ x. dispatch (put_req coding endname args) x w) at
        ∙ dispatch-put coding endname args n w in
      (
        _,
        next
            (next (next (next begin (reads refl)) (executes route h))
              (handler_returns route.server refl run))
            (takes_reply route _ refl refl),
        ((((tt, tt), tt), tt), tt),
        refl,
        refl,
        sending-alive endname route e.net h,
      )

  -- A Put that goes through an end which is enabled and leads to a key/value server can be answered in the
  -- way of each fate of the clerk's model by a run in which others do nothing: as delivered on any network,
  -- and as a lost request or a lost reply on an unreliable one. The state of the server that the end leads to
  -- is then the one that the fate gives, and the states of the others are as before.
  pub fate-happens :
      (endname : String) (args : PutArgs) (e : Env KvServer) (route : Route) (fate : Fate)
      → AllKv coding e
      → after_read (read_endname_info endname e.net) ≡ sending route
      → ((fate ≡ delivered) ⊎ (route.reliable ≡ false))
      → (s : Process KvServer) × (r : Reach (put_req coding endname args) e s) × Alone r
        × (s.stage ≡ replied (answer coding (call_put (e.world route.server) args fate).1))
        × ((j : ℕ)
            → s.env.world j
              ≡ update e.world route.server (call_put (e.world route.server) args fate).0 j)
  unfolding call_put is_lost Alone IsOwn
  fate-happens endname args e route lost_request kv h may = (
    _,
    next (next begin (reads refl)) (drops_request route h (unreliable_for lost_request refl may)),
    ((tt, tt), tt),
    refl,
    update_same e.world route.server,
  )
  fate-happens endname args e route lost_reply kv h may =
      let (s, r, own, at, w, alive) = handled endname args e route kv h in
      (
        _,
        next r (
            drops_reply route _ at (refused-passed _ _ alive) (unreliable_for lost_reply refl may)),
        (own, tt),
        refl,
        λ j. ap (λ f. f j) w,
      )
  fate-happens endname args e route delivered kv h may =
      let (s, r, own, at, w, alive) = handled endname args e route kv h in
      (
        _,
        next r (replies route _ at (refused-passed _ _ alive)),
        (own, tt),
        refl,
        λ j. ap (λ f. f j) w,
      )
