-- ===== src/KvServer.antt =====
-- kvsrv1/server.go: the key/value server. A handler runs under the server's mutex, so it is one
-- step from a server state to the next.
pub mod Model
pub mod Replies
mod Tests
use linearizable_kv_store.Prelude.{◌==◌, if◌then◌else◌, Option, none, some, String}
use linearizable_kv_store.Prelude.Dict.{Dict, empty, insert}
use linearizable_kv_store.Rpc.{
  ok, err_no_key, err_version, Tversion, next_version, PutArgs, PutReply, GetArgs, GetReply,
}

pub record KvEntry : Type 0 where
  pub value : String
  pub version : Tversion

pub record KvServer : Type 0 where
  pub store : Dict KvEntry

unfoldable pub make_kv_server : KvServer
make_kv_server = record { store = empty }

-- The reply is the caller's variable: a missing key leaves its value and version alone.
get_entry : Option KvEntry → GetReply → GetReply
get_entry none reply = record reply { err = err_no_key }
get_entry (some entry) reply = record { value = entry.value; version = entry.version; err = ok }

unfoldable pub get : KvServer → GetArgs → GetReply → GetReply
unfolding get_entry
get kv args reply = get_entry (kv.store args.key) reply

put_entry : Option KvEntry → KvServer → PutArgs → PutReply → KvServer × PutReply
put_entry none kv args reply =
    if args.version == 0
    then (
      record { store = insert args.key (record { value = args.value; version = 1 }) kv.store },
      record reply { err = ok },
    )
    else (kv, record reply { err = err_no_key })
put_entry (some entry) kv args reply =
    if args.version == entry.version
    then (
      record {
        store =
            insert args.key (record { value = args.value; version = next_version entry.version })
              kv.store;
      },
      record reply { err = ok },
    )
    else (kv, record reply { err = err_version })

unfoldable pub put : KvServer → PutArgs → PutReply → KvServer × PutReply
unfolding put_entry
put kv args reply = put_entry (kv.store args.key) kv args reply
