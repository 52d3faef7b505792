-- ===== src/Lock.antt =====
-- kvsrv1/lock/lock.go: the lock over the key/value service, and any number of its users. A call of
-- the clerk is one step at the server and, later, the return of its result; other users run between.
mod Claims
mod Moves
mod Own
pub mod Exclusion
mod Tests
use linearizable_kv_store.Prelude.{
  ℕ, Bool, true, false, not, ◌&&◌, ◌≡◌, String, str_eq, if◌then◌else◌, suc,
}
use linearizable_kv_store.Prelude.Family.{update}
use linearizable_kv_store.Rpc.{
  Err, ok, err_maybe, Tversion, next_version, PutArgs, GetReply, zero_put_reply, zero_get_reply,
}
use linearizable_kv_store.KvServer.{KvServer, get, put, make_kv_server}
use linearizable_kv_store.Clerk.Linear.{Reports}

-- `ck`, the clerk, is the system's: every lock talks to the one server.
pub record Lock : Type 0 where
  pub key : String
  pub held : Bool
  pub version : Tversion
  pub id : String

abbrev pub available : String
available = "available"

-- Where a user of a lock stands.
pub data Pc : Type 0 where
  making : Pc  -- before the Put of MakeLock
  idle : Pc  -- in no method
  acquire_get : Pc  -- head of the loop in Acquire
  acquire_got : GetReply → Pc
  acquire_put : Tversion → Pc
  acquire_put_got : Tversion → Err → Pc
  acquire_check : Pc  -- before the Get that follows ErrMaybe
  acquire_check_got : GetReply → Pc
  release_put : Pc  -- head of the loop in Release
  release_put_got : Err → Pc
  release_check : Pc  -- before the Get that follows ErrMaybe
  release_check_got : GetReply → Pc

is_ok : Err → Bool
is_ok ok = true
is_ok _ = false

acquired : Lock → Tversion → Lock × Pc
acquired lk version = (record lk { held = true; version = version }, idle)

-- Acquire, from the return of its Get to its next call.
unfoldable pub after_get : Lock → GetReply → Lock × Pc
unfolding is_ok acquired
after_get lk r =
    if not (is_ok r.err)
    then (lk, acquire_get)
    else if str_eq r.value lk.id
    then acquired lk r.version
    else if not (str_eq r.value available)
    then (lk, acquire_get)
    else (lk, acquire_put r.version)

unfoldable pub after_acquire_put : Lock → Tversion → Err → Lock × Pc
unfolding acquired
after_acquire_put lk version ok = acquired lk (next_version version)
after_acquire_put lk version err_maybe = (lk, acquire_check)
after_acquire_put lk version _ = (lk, acquire_get)

unfoldable pub after_acquire_check : Lock → GetReply → Lock × Pc
unfolding is_ok acquired
after_acquire_check lk r =
    if is_ok r.err && str_eq r.value lk.id then acquired lk r.version else (lk, acquire_get)

released : Lock → Lock × Pc
released lk = (record lk { held = false }, idle)

-- Release, up to its first call; of a lock that is not held it prints a line and returns.
unfoldable pub release : Lock → Lock × Pc
release lk = if not lk.held then (lk, idle) else (lk, release_put)

unfoldable pub after_release_put : Lock → Err → Lock × Pc
unfolding released
after_release_put lk ok = released lk
after_release_put lk err_maybe = (lk, release_check)
after_release_put lk _ = (lk, release_put)

unfoldable pub after_release_check : Lock → GetReply → Lock × Pc
unfolding is_ok released
after_release_check lk r =
    if is_ok r.err && not (str_eq r.value lk.id) then released lk else (lk, release_put)

pub record User : Type 0 where
  pub lock : Lock
  pub pc : Pc

abbrev pub user : Lock × Pc → User
user p = record { lock = p.0; pc = p.1 }

-- The Puts of MakeLock, Acquire and Release.
abbrev pub make_args : Lock → PutArgs
make_args lk = record { key = lk.key; value = available; version = 0 }

abbrev pub acquire_args : Lock → Tversion → PutArgs
acquire_args lk version = record { key = lk.key; value = lk.id; version = version }

abbrev pub release_args : Lock → PutArgs
release_args lk = record { key = lk.key; value = available; version = lk.version }

-- One step of a user whose lock is `lk`, at a server `kv`. A Put runs once at the server, and the
-- clerk reports its reply as `Reports` says. Acquire is called on a lock that is not held.
pub data Move (kv : KvServer) (lk : Lock) : Pc → KvServer → User → Type 0 where
  make : Move kv lk making (put kv (make_args lk) zero_put_reply).0 (user (lk, idle))
  call_acquire : lk.held ≡ false → Move kv lk idle kv (user (lk, acquire_get))
  call_release : Move kv lk idle kv (user (release lk))
  get_lock :
      Move kv lk acquire_get kv
        (user (lk, acquire_got (get kv (record { key = lk.key }) zero_get_reply)))
  got_lock : {r : GetReply} → Move kv lk (acquire_got r) kv (user (after_get lk r))
  put_id :
      {v : Tversion} {e : Err}
      → Reports (put kv (acquire_args lk v) zero_put_reply).1.err e
      → Move kv lk
          (acquire_put v)
          (put kv (acquire_args lk v) zero_put_reply).0
          (user (lk, acquire_put_got v e))
  did_put_id :
      {v : Tversion} {e : Err}
      → Move kv lk (acquire_put_got v e) kv (user (after_acquire_put lk v e))
  get_check :
      Move kv lk acquire_check kv
        (user (lk, acquire_check_got (get kv (record { key = lk.key }) zero_get_reply)))
  got_check : {r : GetReply} → Move kv lk (acquire_check_got r) kv (user (after_acquire_check lk r))
  put_available :
      {e : Err}
      → Reports (put kv (release_args lk) zero_put_reply).1.err e
      → Move kv lk release_put
          (put kv (release_args lk) zero_put_reply).0
          (user (lk, release_put_got e))
  did_put_available : {e : Err} → Move kv lk (release_put_got e) kv (user (after_release_put lk e))
  get_released :
      Move kv lk release_check kv
        (user (lk, release_check_got (get kv (record { key = lk.key }) zero_get_reply)))
  got_released :
      {r : GetReply} → Move kv lk (release_check_got r) kv (user (after_release_check lk r))

pub record System : Type 0 where
  pub server : KvServer
  pub users : ℕ → User

-- MakeLock up to its Put, for a lock at `key`; `id` is the random value that the user drew.
unfoldable pub make_lock : String → String → Lock
make_lock key id = record { key = key; held = false; version = 0; id = id }

unfoldable pub start : String → (ℕ → String) → System
unfolding make_lock make_kv_server
start key ids = record {
  server = make_kv_server;
  users = λ i. record { lock = make_lock key (ids i); pc = making };
}

pub data Step (s : System) : System → Type 0 where
  step :
      (i : ℕ) {kv : KvServer} {u : User}
      → Move s.server (s.users i).lock (s.users i).pc kv u
      → Step s (record { server = kv; users = update s.users i u })

-- What `n` steps of any users in any order lead to.
pub data Reach (key : String) (ids : ℕ → String) : ℕ → System → Type 0 where
  begin : Reach key ids 0 (start key ids)
  next : {n : ℕ} {s t : System} → Reach key ids n s → Step s t → Reach key ids (suc n) t
