-- ===== src/Labrpc/Process/Kv.antt =====
-- labrpc/labrpc.go with kvsrv1/server.go behind it: a Put on its way to a key/value server. labgob's
-- coding of arguments and replies is a parameter, and others send any requests.
use linearizable_kv_store.Labrpc.Process.{Env}
use linearizable_kv_store.Labrpc.{no_reply}
use mathlib.Core.Option.{some-injective, none-ne-some}
use linearizable_kv_store.Prelude.{
  ℕ, ◌+◌, ◌≡◌, refl, sym, ap, ◌∙◌, some, none, Option, List, String, ◌⊎◌, true, inl, inr, str_eq,
  Bool-cases, if◌then◌else◌,
}
use linearizable_kv_store.Prelude.Dict.{empty, insert, insert_cases}
use linearizable_kv_store.Prelude.Panic.{◌>>=◌, >>=-eq-some}
use linearizable_kv_store.Rpc.{PutArgs, PutReply, GetArgs, GetReply, zero_put_reply, zero_get_reply}
use linearizable_kv_store.KvServer.{KvServer, put, get}
use linearizable_kv_store.Clerk.{Request, get_request, put_request, handle}
use linearizable_kv_store.Labrpc.{ReqMsg, ReplyMsg}
use linearizable_kv_store.Labrpc.Server.{
  Method, Service, Server, make_server, add_service, dispatch, call_method, split_last_dot,
}

-- labgob, for the messages of the key/value service.
pub record Coding : Type 0 where
  pub decode_put : List ℕ → PutArgs
  pub encode_put : PutArgs → List ℕ
  pub decode_get : List ℕ → GetArgs
  pub encode_put_reply : PutReply → List ℕ
  pub encode_get_reply : GetReply → List ℕ
  pub decode-encode : (args : PutArgs) → decode_put (encode_put args) ≡ args

module _ (coding : Coding) where
  abbrev pub put_method : Method KvServer
  put_method args kv =
      let (kv', reply) = put kv (coding.decode_put args) zero_put_reply in
      (kv', coding.encode_put_reply reply)

  abbrev pub get_method : Method KvServer
  get_method args kv =
      (kv, coding.encode_get_reply (get kv (coding.decode_get args) zero_get_reply))

  -- What MakeService makes of a KVServer.
  abbrev pub kv_service : Service KvServer
  kv_service = record {
    name = "KVServer";
    methods = insert "Get" get_method (insert "Put" put_method empty);
  }

  abbrev pub kv_server : Server KvServer
  kv_server = add_service kv_service make_server

  abbrev pub put_req : String → PutArgs → ReqMsg
  put_req endname args = record {
    endname = endname;
    svc_meth = "KVServer.Put";
    args = coding.encode_put args;
  }

  abbrev pub put_answer : PutReply → ReplyMsg
  put_answer reply = record { ok = true; reply = coding.encode_put_reply reply }

  -- That server once it has served `n` requests.
  abbrev pub counted : ℕ → Server KvServer
  counted n = record kv_server { count = n }

  split_put : split_last_dot "KVServer.Put" ≡ some ("KVServer", "Put")
  unfolding split_last_dot
  split_put = refl

  pub dispatch-put :
      (endname : String) (args : PutArgs) (n : ℕ) (kv : KvServer)
      → dispatch (put_req endname args) (counted n) kv
        ≡ some (
          counted (n + 1),
          (put kv args zero_put_reply).0,
          put_answer (put kv args zero_put_reply).1,
        )
  unfolding dispatch call_method split_last_dot add_service make_server
  dispatch-put endname args n kv =
      ap
        (λ a.
          some
            (counted (n + 1), (put kv a zero_put_reply).0, put_answer (put kv a zero_put_reply).1))
        (coding.decode-encode args)

  method_cases :
      (name : String) (m : Method KvServer)
      → kv_service.methods name ≡ some m
      → (m ≡ get_method) ⊎ (m ≡ put_method)
  method_cases name m h =
      elim (insert_cases "Get" name get_method m (insert "Put" put_method empty) h) [
        | inl is_get ↦ inl is_get
        | inr rest ↦ elim (insert_cases "Put" name put_method m empty rest) [
          | inl is_put ↦ inr is_put
          | inr none_left ↦ absurd (none-ne-some _ none_left)
        ]
      ]

  -- What a request that goes to a key/value server is for it, if anything.
  abbrev pub method_request : String → List ℕ → Option Request
  method_request name args =
      if str_eq "Get" name
      then some (get_request (coding.decode_get args))
      else if str_eq "Put" name
      then some (put_request (coding.decode_put args))
      else none

  unfoldable pub read_request : ReqMsg → Option Request
  read_request req = split_last_dot req.svc_meth >>= λ names.
      if str_eq "KVServer" names.0 then method_request names.1 req.args else none

  call_method-handles :
      (name : String) (args : List ℕ) (kv kv' : KvServer) (reply : ReplyMsg)
      → call_method kv_service name args kv ≡ some (kv', reply)
      → (r : Request) × (method_request name args ≡ some r) × (kv' ≡ (handle kv r).0)
  unfolding call_method handle
  call_method-handles name args kv kv' reply h = elim (Bool-cases (str_eq "Get" name)) [
    | inl p ↦ (
      get_request (coding.decode_get args),
      rw p refl,
      sym (ap (λ (r : KvServer × ReplyMsg). r.0) (some-injective _ _ (rw p at h))),
    )
    | inr p ↦ elim (Bool-cases (str_eq "Put" name)) [
      | inl q ↦ (
        put_request (coding.decode_put args),
        rw (p, q) refl,
        sym (ap (λ (r : KvServer × ReplyMsg). r.0) (some-injective _ _ (rw (p, q) at h))),
      )
      | inr q ↦ absurd (none-ne-some _ (rw (p, q) at h))
    ]
  ]

  services-handle :
      (service name : String) (args : List ℕ) (kv kv' : KvServer) (reply : ReplyMsg)
      → (kv_server.services service >>= λ svc. call_method svc name args kv) ≡ some (kv', reply)
      → (r : Request) × ((if str_eq "KVServer" service then method_request name args else none)
          ≡ some r)
        × (kv' ≡ (handle kv r).0)
  unfolding add_service make_server
  services-handle service name args kv kv' reply h = elim (Bool-cases (str_eq "KVServer" service)) [
    | inl p ↦ rw p (call_method-handles name args kv kv' reply (rw p at h))
    | inr p ↦ absurd (none-ne-some _ (rw p at h))
  ]

  -- What a key/value server makes of a request that returns is what the server's model makes of it.
  pub dispatch-handles :
      (req : ReqMsg) (n : ℕ) (kv : KvServer) {rs : Server KvServer} {kv' : KvServer}
      {reply : ReplyMsg}
      → dispatch req (counted n) kv ≡ some (rs, kv', reply)
      → (r : Request) × (read_request req ≡ some r)
        × (rs ≡ counted (n + 1))
        × (kv' ≡ (handle kv r).0)
  unfolding dispatch add_service make_server read_request
  dispatch-handles req n kv {rs} {kv'} h =
      let (names, parted, h1) = >>=-eq-some (split_last_dot req.svc_meth) _ h in
      let (done, came, h2) =
        >>=-eq-some (kv_server.services names.0 >>= λ svc. call_method svc names.1 req.args kv)
          (λ done. some (counted (n + 1), done.0, done.1)) h1 in
      let same : (counted (n + 1), done.0, done.1) ≡ (rs, kv', _) = some-injective _ _ h2 in
      let (r, read, e) = services-handle names.0 names.1 req.args kv done.0 done.1 came in
      (
        r,
        rw parted read,
        sym (ap (λ (r : Server KvServer × KvServer × ReplyMsg). r.0) same),
        sym (ap (λ (r : Server KvServer × KvServer × ReplyMsg). r.1) same) ∙ e,
      )

  -- Every server on the heap is a key/value server, which may have served some requests.
  abbrev pub AllKv : Env KvServer → Type 0
  AllKv e = (i : ℕ) → (n : ℕ) × (e.heap i ≡ counted n)

  -- What a call gives to its caller.
  abbrev pub answer : Option PutReply → ReplyMsg
  answer none = no_reply
  answer (some reply) = put_answer reply
