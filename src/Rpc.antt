-- ===== src/Rpc.antt =====
-- kvsrv1/rpc/rpc.go: the errors, arguments and replies of the key/value service.
use linearizable_kv_store.Prelude.{ℕ, ◌+◌, ◌%◌, ◌^◌, String}

-- `type Err string`, of which the program uses the named constants and the zero value "".
pub data Err : Type 0 where
  ok : Err  -- "OK"
  err_no_key : Err
  err_version : Err
  err_maybe : Err
  err_wrong_leader : Err
  err_wrong_group : Err
  unset : Err  -- ""

-- `type Tversion uint64`: a number below 2 ^ 64.
abbrev pub Tversion : Type 0
Tversion = ℕ

-- `v + 1` on a uint64.
abbrev pub next_version : Tversion → Tversion
next_version v = (v + 1) % 2 ^ 64

pub record PutArgs : Type 0 where
  pub key : String
  pub value : String
  pub version : Tversion

pub record PutReply : Type 0 where
  pub err : Err

pub record GetArgs : Type 0 where
  pub key : String

pub record GetReply : Type 0 where
  pub value : String
  pub version : Tversion
  pub err : Err

-- `rpc.PutReply{}` and `rpc.GetReply{}`: the replies that a clerk hands to a call.
abbrev pub zero_put_reply : PutReply
zero_put_reply = record { err = unset }

abbrev pub zero_get_reply : GetReply
zero_get_reply = record { value = ""; version = 0; err = unset }
