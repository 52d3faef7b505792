-- ===== src/Labrpc/Tests.antt =====
-- labrpc/labrpc.go: the witnesses, a clerk's Put to a key/value server.
mod Bytes
use mathlib.Core.Bool.{false≢true}
use linearizable_kv_store.Prelude.{
  ℕ, ◌≡◌, ◌≤◌, ◌≢◌, refl, ap, inl, inr, true, false, Option, none, some, List, ◌⊎◌, ◌==◌, String,
  eq_iff, arith, str_eq,
}
use linearizable_kv_store.Prelude.Family.{update}
use linearizable_kv_store.Prelude.Panic.{each}
use linearizable_kv_store.Rpc.{PutArgs, zero_put_reply}
use linearizable_kv_store.KvServer.{KvServer, make_kv_server}
use linearizable_kv_store.Clerk.{
  Request, handle_all, Fate, lost_request, lost_reply, delivered, call_put,
}
use linearizable_kv_store.Labrpc.{
  Network, ReplyMsg, no_reply, make_network, set_reliable, read_endname_info, make_end, delete_end,
  connect, enable, add_server, delete_server,
}
use linearizable_kv_store.Labrpc.Process.{
  Route, Env, Process, sending, timing_out, replied, after_read, is_dead, Reach,
}
use linearizable_kv_store.Labrpc.Process.Once.{acts, play, own_runs}
use linearizable_kv_store.Labrpc.Process.Answers.{reach-AtMostOnce}
use linearizable_kv_store.Labrpc.Process.Causes.{replied-Failed, replied-Answered}
use linearizable_kv_store.Labrpc.Process.Traces.{Failed, Answered}
use linearizable_kv_store.Labrpc.Process.Kv.{AllKv, answer, counted, put_req, put_answer}
use linearizable_kv_store.Labrpc.Process.Fates.{fate-happens, Alone}
use linearizable_kv_store.Labrpc.Setup.{wire, the_route, wire-Route, wire-after_read}
use linearizable_kv_store.Labrpc.Apart.{EndOp, connects, EndOp-apart}
use linearizable_kv_store.Labrpc.Call.{call, by_network, outcome, call-replied, Outcome}
use linearizable_kv_store.Labrpc.Tests.Bytes.{coding, decode_put_reply, decode-encode_put_reply}

abbrev put_x : PutArgs
put_x = record { key = "x"; value = "1"; version = 0 }

-- An unreliable network.
abbrev lossy : Network
lossy = record make_network { reliable = false }

abbrev net : Network
net = wire "clerk" "server" 0 lossy

abbrev way : Route
way = the_route "server" 0 lossy

abbrev env : Env KvServer
env = record { net = net; heap = λ _. counted coding 0; world = λ _. make_kv_server }

abbrev env-AllKv : AllKv coding env
env-AllKv i = (0, refl)

fate-happens_example :
    (s : Process KvServer) × (r : Reach (put_req coding "clerk" put_x) env s) × Alone r
    × (s.stage ≡ replied (answer coding (call_put make_kv_server put_x lost_reply).1))
    × ((j : ℕ) → s.env.world j ≡ update env.world 0 (call_put make_kv_server put_x lost_reply).0 j)
fate-happens_example =
    fate-happens coding "clerk" put_x env way lost_reply env-AllKv
      (wire-after_read "clerk" "server" 0 lossy) (inr refl)

-- The run of a Put that is delivered.
abbrev delivery :
    (s : Process KvServer) × (r : Reach (put_req coding "clerk" put_x) env s) × Alone r
    × (s.stage ≡ replied (answer coding (call_put make_kv_server put_x delivered).1))
    × ((j : ℕ) → s.env.world j ≡ update env.world 0 (call_put make_kv_server put_x delivered).0 j)
delivery =
    fate-happens coding "clerk" put_x env way delivered env-AllKv
      (wire-after_read "clerk" "server" 0 lossy) (inl refl)

abbrev run : Reach (put_req coding "clerk" put_x) env delivery.0
run = delivery.1

abbrev reply : ReplyMsg
reply = answer coding (call_put make_kv_server put_x delivered).1

call-replied_example : Outcome coding decode_put_reply put_x run reply
call-replied_example =
    call-replied coding decode_put_reply "clerk" put_x env run reply decode-encode_put_reply
      env-AllKv delivery.3

reach-AtMostOnce_example :
    (each (play (put_req coding "clerk" put_x)) (acts run) (env.heap, env.world)
      ≡ some (delivery.0.env.heap, delivery.0.env.world))
    × (own_runs (acts run) ≤ 1)
reach-AtMostOnce_example = reach-AtMostOnce run

replied-Answered_example : (own_runs (acts run) ≡ 1) × Answered run reply
unfolding call_put
replied-Answered_example = replied-Answered run reply delivery.3 refl

replied-Failed_example : ((reply ≡ no_reply) × Failed run) ⊎ Answered run reply
replied-Failed_example = replied-Failed run reply delivery.3

wire-Route_example :
    (after_read (read_endname_info "clerk" net) ≡ sending way)
    × (is_dead "clerk" way net ≡ false)
    × (after_read (read_endname_info "clerk" (enable "clerk" false net)) ≡ timing_out)
    × (is_dead "clerk" way (enable "clerk" false net) ≡ true)
    × (after_read (read_endname_info "clerk" (delete_server "server" net)) ≡ timing_out)
    × (is_dead "clerk" way (delete_server "server" net) ≡ true)
    × (is_dead "clerk" way (add_server "server" 1 net) ≡ true)
wire-Route_example = wire-Route "clerk" "server" 0 1 lossy (omega arith)

other-clerk : ◌≢◌ {A = String} "clerk" "other"
other-clerk h = false≢true ((eq_iff "clerk" "other").1 h)

EndOp-apart_example :
    (read_endname_info "other" (connect "clerk" "server" net) ≡ read_endname_info "other" net)
    × (is_dead "other" way (connect "clerk" "server" net) ≡ is_dead "other" way net)
EndOp-apart_example = EndOp-apart "clerk" "other" way (connects "server") other-clerk
