-- ===== src/KvModel.antt =====
-- models1/kv.go: the sequential specification of one key, which the linearizability checker runs.
pub mod History
use linearizable_kv_store.Prelude.{
  ℕ, String, Bool, true, false, Option, none, some, ◌||◌, ◌==◌, if◌then◌else◌, str_eq,
}
use linearizable_kv_store.Rpc.{Err, ok, err_version, err_maybe, Tversion, next_version}

pub record KvInput : Type 0 where
  pub op : ℕ  -- 0 => get, 1 => put
  pub key : String
  pub value : String
  pub version : Tversion

pub record KvOutput : Type 0 where
  pub value : String
  pub version : Tversion
  pub err : Err

pub record KvState : Type 0 where
  pub value : String
  pub version : Tversion

abbrev pub init : KvState
init = record { value = ""; version = 0 }

is_ok : Err → Bool
is_ok ok = true
is_ok _ = false

is_version : Err → Bool
is_version err_version = true
is_version _ = false

is_maybe : Err → Bool
is_maybe err_maybe = true
is_maybe _ = false

-- `none` is the string "<invalid>", which stands for the state after any other operation.
unfoldable pub step : KvState → KvInput → KvOutput → Bool × Option KvState
unfolding is_ok is_version is_maybe
step st inp out =
    if inp.op == 0
    then (str_eq out.value st.value, some st)
    else if inp.op == 1
    then (if st.version == inp.version
        then (
          is_ok out.err || is_maybe out.err,
          some (record { value = inp.value; version = next_version st.version }),
        )
        else (is_version out.err || is_maybe out.err, some st))
    else (false, none)
