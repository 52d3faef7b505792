-- ===== src/Clerk/Linear.antt =====
-- kvsrv1/client.go: the clerk's Put takes effect at most once, at one moment of its run.
use linearizable_kv_store.Prelude.{none, some, List, [], ◌∷◌, ◌++◌, ◌≡◌, refl}
use linearizable_kv_store.Rpc.{Err, ok, err_version, err_maybe, PutArgs, zero_put_reply}
use linearizable_kv_store.KvServer.{KvServer, put}
use linearizable_kv_store.Clerk.{Request, handle, handle_all, Run}

-- The clerk reports the server's reply `r`, or ErrMaybe in place of OK or ErrVersion.
pub data Reports (r : Err) : Err → Type 0 where
  as_is : {e : Err} → e ≡ r → Reports r e
  maybe_done : {e : Err} → e ≡ err_maybe → r ≡ ok → Reports r e
  maybe_not : {e : Err} → e ≡ err_maybe → r ≡ err_version → Reports r e

-- A run in which the put never took effect and has no result, or one in which the server handled
-- `before`, then the put once, then `later`, all else being other clients' requests.
pub data Linearized (kv : KvServer) (args : PutArgs) (run : Run Err) : Type 0 where
  absent :
      (requests : List Request)
      → run.server ≡ (handle_all kv requests).0
      → run.history ≡ (handle_all kv requests).1
      → run.result ≡ none
      → Linearized kv args run
  once :
      (before later : List Request)
      → run.server ≡ (handle_all (put (handle_all kv before).0 args zero_put_reply).0 later).0
      → run.history
        ≡ (handle_all kv before).1
          ++ (handle_all (put (handle_all kv before).0 args zero_put_reply).0 later).1
      → ((e : Err)
          → run.result ≡ some e
          → Reports (put (handle_all kv before).0 args zero_put_reply).1.err e)
      → Linearized kv args run

pub handle_all-append :
    (kv : KvServer) (xs ys : List Request)
    → (handle_all kv (xs ++ ys)).0 ≡ (handle_all (handle_all kv xs).0 ys).0
unfolding handle_all
handle_all-append kv [] ys = refl
handle_all-append kv (x ∷ xs) ys = handle_all-append (handle kv x).0 xs ys

pub history-append :
    (kv : KvServer) (xs ys : List Request)
    → (handle_all kv (xs ++ ys)).1 ≡ (handle_all kv xs).1 ++ (handle_all (handle_all kv xs).0 ys).1
unfolding handle_all
history-append kv [] ys = refl
history-append kv (x ∷ xs) ys = rw (history-append (handle kv x).0 xs ys)
