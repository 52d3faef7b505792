-- ===== src/KvServer/Replies.antt =====
-- The replies of kvsrv1/server.go on every branch, and how versions grow.
use linearizable_kv_store.Prelude.{
  ℕ, ◌+◌, ◌^◌, ◌≤◌, ◌<◌, String, Option, none, some, ◌≡◌, ◌≢◌, ◌↔◌, arith, eq_iff, eq_refl, refl,
}
use linearizable_kv_store.Rpc.{
  ok, err_no_key, err_version, next_version, PutArgs, PutReply, GetArgs, GetReply, zero_get_reply,
}
use linearizable_kv_store.KvServer.{KvEntry, KvServer, put_entry, put, get_entry, get}
use linearizable_kv_store.KvServer.Model.{state_of, view}

-- The version that a Put has to name.
abbrev pub version_at : KvServer → String → ℕ
version_at kv k = (view kv k).version

module _ (kv : KvServer) (args : PutArgs) (reply : PutReply) where
  -- Put answers OK exactly when the request names the key's version, with 0 for a missing key. It
  -- answers ErrNoKey exactly on a missing key with another version, and ErrVersion exactly on a key
  -- that is there with another version.
  pub put-err :
      (((put kv args reply).1.err ≡ ok) ↔ (args.version ≡ version_at kv args.key))
      × (((put kv args reply).1.err ≡ err_no_key)
          ↔ ((kv.store args.key ≡ none) × (args.version ≢ 0)))
      × (((put kv args reply).1.err ≡ err_version)
          ↔ (e : KvEntry) × (kv.store args.key ≡ some e) × (args.version ≢ e.version))
  unfolding put view
  put-err = go (kv.store args.key)
    where
      go :
          (o : Option KvEntry)
          → (((put_entry o kv args reply).1.err ≡ ok) ↔ (args.version ≡ (state_of o).version))
            × (((put_entry o kv args reply).1.err ≡ err_no_key) ↔ ((o ≡ none) × (args.version ≢ 0)))
            × (((put_entry o kv args reply).1.err ≡ err_version)
                ↔ (e : KvEntry) × (o ≡ some e) × (args.version ≢ e.version))
      go none =
          ((ground arith, ground arith), (ground arith, ground arith), (ground arith, ground arith))
      go (some e) = (
        (ground arith, ground arith),
        (ground arith, ground arith),
        (λ h. (e, refl, ground arith), λ h. ground arith),
      )

  -- A Put that does not answer OK leaves the server as it was.
  pub put_unchanged : (put kv args reply).1.err ≢ ok → (put kv args reply).0 ≡ kv
  unfolding put
  put_unchanged h = ground arith

  -- After an OK the key holds the value of the request under the next version.
  pub put_done :
      (put kv args reply).1.err ≡ ok
      → (put kv args reply).0.store args.key
        ≡ some (record { value = args.value; version = next_version args.version })
  unfolding put
  put_done h = ground (arith, eq_refl args.key)

  -- One Put raises the version of a key by at most one, while versions stay below 2 ^ 64.
  pub version_at-put :
      (k : String)
      → version_at kv k + 1 < 2 ^ 64
      → (version_at kv k ≤ version_at (put kv args reply).0 k)
        × (version_at (put kv args reply).0 k ≤ version_at kv k + 1)
  unfolding put view
  version_at-put k h = ground (arith, eq_iff args.key k)

-- What a reply says of a key: the entry's value and version with OK, or ErrNoKey and nothing else.
unfoldable pub Shown : Option KvEntry → GetReply → Type 0
Shown none r = (r.err ≡ err_no_key) × (r.value ≡ "") × (r.version ≡ 0)
Shown (some entry) r = (r.err ≡ ok) × (r.value ≡ entry.value) × (r.version ≡ entry.version)

pub get-Shown :
    (kv : KvServer) (args : GetArgs) → Shown (kv.store args.key) (get kv args zero_get_reply)
unfolding Shown get
get-Shown kv args = go (kv.store args.key)
  where
    go : (o : Option KvEntry) → Shown o (get_entry o zero_get_reply)
    go none = (refl, refl, refl)
    go (some entry) = (refl, refl, refl)
