-- ===== src/Clerk/Versions.antt =====
-- kvsrv1/server.go: versions over a sequence of requests, and a Put that comes too late.
use linearizable_kv_store.Prelude.{
  ◌+◌, ◌^◌, ◌≤◌, ◌<◌, String, List, [], ◌∷◌, ◌≡◌, arith, length, eq_refl, refl, ◌⊎◌, inl, inr, ◌≢◌,
}
use linearizable_kv_store.Rpc.{
  Err, ok, err_no_key, err_version, err_maybe, err_wrong_leader, err_wrong_group, unset, PutArgs,
  zero_put_reply,
}
use linearizable_kv_store.KvServer.{KvServer, put}
use linearizable_kv_store.KvServer.Model.{view}
use linearizable_kv_store.KvServer.Replies.{version_at, version_at-put}
use linearizable_kv_store.Clerk.{Request, get_request, put_request, handle, handle_all}

version_at-handle :
    (kv : KvServer) (r : Request) (k : String)
    → version_at kv k + 1 < 2 ^ 64
    → (version_at kv k ≤ version_at (handle kv r).0 k)
      × (version_at (handle kv r).0 k ≤ version_at kv k + 1)
unfolding handle
version_at-handle kv (get_request args) k h = omega arith
version_at-handle kv (put_request args) k h = version_at-put kv args zero_put_reply k h

-- Each request raises the version of a key by at most one, and none lowers it.
pub version_at-handle_all :
    (kv : KvServer) (rs : List Request) (k : String)
    → version_at kv k + length rs < 2 ^ 64
    → (version_at kv k ≤ version_at (handle_all kv rs).0 k)
      × (version_at (handle_all kv rs).0 k ≤ version_at kv k + length rs)
unfolding handle_all
version_at-handle_all kv [] k h = omega arith
version_at-handle_all kv (r ∷ rs) k h = omega (
  arith,
  version_at-handle kv r k (omega arith),
  version_at-handle_all (handle kv r).0 rs k
      (omega (arith, version_at-handle kv r k (omega arith))),
)

-- A Put below the key's version is answered ErrVersion and changes nothing.
pub put_late :
    (kv : KvServer) (args : PutArgs)
    → args.version < version_at kv args.key
    → put kv args zero_put_reply ≡ (kv, record { err = err_version })
unfolding put view
put_late kv args h = ground arith

-- An OK moves the key's version past the one of the request, by one.
pub put_passes :
    (kv : KvServer) (args : PutArgs)
    → version_at kv args.key + 1 < 2 ^ 64
    → (put kv args zero_put_reply).1.err ≡ ok
    → (args.version < version_at (put kv args zero_put_reply).0 args.key)
      × (version_at (put kv args zero_put_reply).0 args.key ≤ version_at kv args.key + 1)
unfolding put view
put_passes kv args h done = ground (arith, eq_refl args.key)

pub ok-cases : (e : Err) → (e ≡ ok) ⊎ (e ≢ ok)
ok-cases ok = inl refl
ok-cases err_no_key = inr (λ p. cc)
ok-cases err_version = inr (λ p. cc)
ok-cases err_maybe = inr (λ p. cc)
ok-cases err_wrong_leader = inr (λ p. cc)
ok-cases err_wrong_group = inr (λ p. cc)
ok-cases unset = inr (λ p. cc)
