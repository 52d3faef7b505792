-- ===== src/KvServer/Tests.antt =====
-- The server's theorems at small stores.
use linearizable_kv_store.Prelude.{◌≡◌, ◌≢◌, ◌↔◌, true, false, some, none, String, arith, refl}
use linearizable_kv_store.Prelude.Dict.{insert}
use linearizable_kv_store.Rpc.{ok, err_no_key, err_version, PutArgs, zero_put_reply}
use linearizable_kv_store.KvServer.{KvEntry, KvServer, make_kv_server, put}
use linearizable_kv_store.KvModel.{step}
use linearizable_kv_store.KvServer.Model.{view, put_input, put_output, put-step, no_key_rejected}
use linearizable_kv_store.KvServer.Replies.{version_at, put-err}

-- One key, written twice.
abbrev one_key : KvServer
one_key = record { store = insert "k" (record { value = "b"; version = 2 }) make_kv_server.store }

abbrev write : PutArgs
write = record { key = "k"; value = "c"; version = 2 }

write_ok : (put one_key write zero_put_reply).1.err ≡ ok
unfolding put
write_ok = refl

put-step_example :
    (step (view one_key "k") (put_input write) (put_output (put one_key write zero_put_reply).1.err)
      ≡ (true, some (view (put one_key write zero_put_reply).0 "k")))
    × ((k : String) → "k" ≢ k → view (put one_key write zero_put_reply).0 k ≡ view one_key k)
put-step_example = put-step one_key write (λ p. cc write_ok)

put-err_example :
    (((put one_key write zero_put_reply).1.err ≡ ok) ↔ (2 ≡ version_at one_key "k"))
    × (((put one_key write zero_put_reply).1.err ≡ err_no_key)
        ↔ ((one_key.store "k" ≡ none) × (write.version ≢ 0)))
    × (((put one_key write zero_put_reply).1.err ≡ err_version)
        ↔ (e : KvEntry) × (one_key.store "k" ≡ some e) × (write.version ≢ e.version))
put-err_example = put-err one_key write zero_put_reply

no_key_rejected_example :
    ((put make_kv_server write zero_put_reply).1.err ≡ err_no_key)
    × ((step
          (view make_kv_server "k")
          (put_input write)
          (put_output (put make_kv_server write zero_put_reply).1.err)).0
        ≡ false)
unfolding make_kv_server
no_key_rejected_example = no_key_rejected make_kv_server write refl (omega arith)
