-- ===== src/Clerk/Tests.antt =====
-- A Put whose first reply is lost while another client writes, and the theorems at that run.
use linearizable_kv_store.Prelude.{◌≡◌, inl, some, arith, refl, [], ◌∷◌, List, ◌<◌, ◌+◌, ◌^◌}
use linearizable_kv_store.Rpc.{ok, err_version, err_maybe, PutArgs, GetReply}
use linearizable_kv_store.KvServer.{make_kv_server, get, put}
use linearizable_kv_store.KvServer.Replies.{version_at}
use linearizable_kv_store.KvServer.Model.{view}
use linearizable_kv_store.Clerk.{
  Request, put_request, Round, round, lost_request, lost_reply, delivered, clerk_put, clerk_get,
  handle_all, size,
}
use linearizable_kv_store.Clerk.Linear.{Linearized}
use linearizable_kv_store.Clerk.AtMostOnce.{clerk_put-Linearized}
use linearizable_kv_store.Clerk.Outcomes.{
  Accepted, GetAt, clerk_put_refused, clerk_put-Accepted, clerk_get-step,
}

abbrev mine : PutArgs
mine = record { key = "k"; value = "mine"; version = 0 }

abbrev theirs : PutArgs
theirs = record { key = "k"; value = "theirs"; version = 1 }

abbrev rounds : List Round
rounds =
    round [] lost_request ∷ round [] lost_reply ∷ round (put_request theirs ∷ []) delivered ∷ []

abbrev too_late : List Round
too_late = round (put_request mine ∷ []) delivered ∷ []

ends_maybe : (clerk_put make_kv_server mine rounds).result ≡ some err_maybe
unfolding clerk_put handle_all make_kv_server put
ends_maybe = refl

ends_version : (clerk_put make_kv_server mine too_late).result ≡ some err_version
unfolding clerk_put handle_all make_kv_server put
ends_version = refl

room : version_at make_kv_server "k" + size rounds < 2 ^ 64
unfolding size view make_kv_server
room = omega arith

room_too_late : version_at make_kv_server "k" + size too_late < 2 ^ 64
unfolding size view make_kv_server
room_too_late = omega arith

clerk_put-Linearized_example : Linearized make_kv_server mine (clerk_put make_kv_server mine rounds)
clerk_put-Linearized_example = clerk_put-Linearized make_kv_server mine rounds room

clerk_put-Accepted_example :
    Accepted make_kv_server mine (clerk_put make_kv_server mine rounds) err_maybe
clerk_put-Accepted_example =
    clerk_put-Accepted make_kv_server mine rounds err_maybe room (λ p. cc) ends_maybe

clerk_put_refused_example :
    (requests : List Request) × ((clerk_put make_kv_server mine too_late).server
      ≡ (handle_all make_kv_server requests).0)
    × ((clerk_put make_kv_server mine too_late).history ≡ (handle_all make_kv_server requests).1)
clerk_put_refused_example =
    clerk_put_refused make_kv_server mine too_late err_version room_too_late ends_version (inl refl)

abbrev found : GetReply
found = record { value = "mine"; version = 1; err = ok }

got : (clerk_get make_kv_server (record { key = "k" }) too_late).result ≡ some found
unfolding clerk_get handle_all make_kv_server put get
got = refl

clerk_get-step_example :
    GetAt make_kv_server
      (record { key = "k" })
      found
      (clerk_get make_kv_server (record { key = "k" }) too_late)
clerk_get-step_example = clerk_get-step make_kv_server (record { key = "k" }) too_late found got
