-- ===== src/KvServer/Model.antt =====
-- kvsrv1/server.go against models1/kv.go: the handlers are the checker's steps on each key.
use linearizable_kv_store.Prelude.{
  String, Option, none, some, ◌≡◌, ◌≢◌, true, false, arith, eq_iff, eq_refl, refl,
}
use linearizable_kv_store.Rpc.{
  Err, err_no_key, PutArgs, GetArgs, GetReply, zero_put_reply, zero_get_reply,
}
use linearizable_kv_store.KvServer.{get_entry, KvEntry, KvServer, get, put, make_kv_server}
use linearizable_kv_store.KvModel
use linearizable_kv_store.KvModel.{KvState, KvInput, KvOutput, step}

unfoldable pub state_of : Option KvEntry → KvState
state_of none = KvModel.init
state_of (some e) = record { value = e.value; version = e.version }

-- What the checker's specification sees of one key of the server.
unfoldable pub view : KvServer → String → KvState
unfolding state_of
view kv k = state_of (kv.store k)

-- The operations as kvtest1/kvtest.go logs them for the checker.
abbrev pub get_input : GetArgs → KvInput
get_input a = record { op = 0; key = a.key; value = ""; version = 0 }

abbrev pub put_input : PutArgs → KvInput
put_input a = record { op = 1; key = a.key; value = a.value; version = a.version }

abbrev pub get_output : GetReply → KvOutput
get_output r = record { value = r.value; version = r.version; err = r.err }

abbrev pub put_output : Err → KvOutput
put_output e = record { value = ""; version = 0; err = e }

-- A fresh server shows the specification's initial state at every key.
pub view-make_kv_server : (k : String) → view make_kv_server k ≡ KvModel.init
unfolding view make_kv_server
view-make_kv_server k = refl

-- The specification accepts every reply of Get, and stays where it is.
pub get-step :
    (kv : KvServer) (args : GetArgs)
    → step (view kv args.key) (get_input args) (get_output (get kv args zero_get_reply))
      ≡ (true, some (view kv args.key))
unfolding view get step
get-step kv args = go (kv.store args.key)
  where
    go :
        (o : Option KvEntry)
        → step (state_of o) (get_input args) (get_output (get_entry o zero_get_reply))
          ≡ (true, some (state_of o))
    go none = rw (eq_refl "")
    go (some e) = rw (eq_refl e.value)

-- Unless the reply is ErrNoKey, the specification accepts the reply of Put, goes to the state that
-- the server then shows at that key, and no other key changes.
pub put-step :
    (kv : KvServer) (args : PutArgs)
    → (put kv args zero_put_reply).1.err ≢ err_no_key
    → (step (view kv args.key) (put_input args) (put_output (put kv args zero_put_reply).1.err)
        ≡ (true, some (view (put kv args zero_put_reply).0 args.key)))
      × ((k : String) → args.key ≢ k → view (put kv args zero_put_reply).0 k ≡ view kv k)
unfolding view put step
put-step kv args h = (ground (arith, eq_refl args.key), λ k ne. ground (arith, eq_iff args.key k))

-- On a missing key with a version other than 0 the server answers ErrNoKey, and the specification
-- refuses that answer: it allows only ErrVersion and ErrMaybe where versions differ.
pub no_key_rejected :
    (kv : KvServer) (args : PutArgs)
    → kv.store args.key ≡ none
    → args.version ≢ 0
    → ((put kv args zero_put_reply).1.err ≡ err_no_key)
      × ((step
            (view kv args.key)
            (put_input args)
            (put_output (put kv args zero_put_reply).1.err)).0
          ≡ false)
unfolding view put step
no_key_rejected kv args p ne = (ground arith, ground arith)
