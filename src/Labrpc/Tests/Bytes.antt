-- ===== src/Labrpc/Tests/Bytes.antt =====
-- labrpc/labrpc.go: a coding of the key/value service's messages, for the tests.
use Prim.Native.Nat.{Ordering, compare}
use Prim.Native.Char.{Char, char, code, nul, IsLt, IsScalar}
use text.Mathlib.TextEquality.{IsScalar-prop}
use linearizable_kv_store.Prelude.{
  ℕ, zero, suc, ◌≡◌, refl, ap, ◌∙◌, List, [], ◌∷◌, ◌++◌, String, Option, none, some, ◌==◌, true,
  false,
}
use linearizable_kv_store.Rpc.{
  Err, ok, err_no_key, err_version, err_maybe, err_wrong_leader, err_wrong_group, unset, PutArgs,
  PutReply, GetArgs, GetReply, zero_put_reply,
}
use linearizable_kv_store.Labrpc.Process.Kv.{Coding}

-- `IsScalar` by its tests, which a decision needs.
abbrev BelowBoth : Ordering → Ordering → Type 0
BelowBoth Ordering.lt o = IsLt o
BelowBoth Ordering.eq _ = ⊥
BelowBoth Ordering.gt _ = ⊥

abbrev ScalarTest : Ordering → Ordering → Ordering → Type 0
ScalarTest Ordering.lt _ _ = Unit
ScalarTest Ordering.eq o p = BelowBoth o p
ScalarTest Ordering.gt o p = BelowBoth o p

dec_lt : (o : Ordering) → Dec (IsLt o)
dec_lt Ordering.lt = yes tt
dec_lt Ordering.eq = no (λ h. h)
dec_lt Ordering.gt = no (λ h. h)

dec_BelowBoth : (o p : Ordering) → Dec (BelowBoth o p)
dec_BelowBoth Ordering.lt p = dec_lt p
dec_BelowBoth Ordering.eq p = no (λ h. h)
dec_BelowBoth Ordering.gt p = no (λ h. h)

dec_scalar : (o p q : Ordering) → Dec (ScalarTest o p q)
dec_scalar Ordering.lt p q = yes tt
dec_scalar Ordering.eq p q = dec_BelowBoth p q
dec_scalar Ordering.gt p q = dec_BelowBoth p q

char_at : (n : ℕ) → Dec (IsScalar n) → Char
char_at n (yes p) = char n p
char_at n (no _) = nul

char_at-code : (n : ℕ) (p : IsScalar n) (d : Dec (IsScalar n)) → char_at n d ≡ char n p
unfolding char_at
char_at-code n p (yes q) = ap (char n) (IsScalar-prop n q p)
char_at-code n p (no other) = absurd (other p)

char_of : ℕ → Char
char_of n = char_at n (dec_scalar (compare n 55296) (compare 57343 n) (compare n 1114112))

char_of-code : (c : Char) → char_of (code c) ≡ c
unfolding char_of
char_of-code (char n p) = char_at-code n p _

size : String → ℕ
size String.[] = 0
size (String.◌∷◌ c s) = suc (size s)

codes : String → List ℕ
codes String.[] = []
codes (String.◌∷◌ c s) = code c ∷ codes s

-- The text that the first `n` numbers hold, and the numbers after them.
text_of : ℕ → List ℕ → String × List ℕ
unfolding char_of
text_of zero l = ("", l)
text_of (suc n) [] = ("", [])
text_of (suc n) (c ∷ l) = (String.◌∷◌ (char_of c) (text_of n l).0, (text_of n l).1)

text_of-codes : (s : String) (l : List ℕ) → text_of (size s) (codes s ++ l) ≡ (s, l)
unfolding text_of size codes
text_of-codes String.[] l = refl
text_of-codes (String.◌∷◌ c s) l =
    ap (λ (r : String × List ℕ). (String.◌∷◌ (char_of (code c)) r.0, r.1)) (text_of-codes s l)
    ∙ ap (λ d. (String.◌∷◌ d s, l)) (char_of-code c)

encode_put_args : PutArgs → List ℕ
unfolding size codes
encode_put_args args =
    args.version ∷ size args.key ∷ size args.value ∷ (codes args.key ++ (codes args.value ++ []))

decode_put_args : List ℕ → PutArgs
unfolding text_of
decode_put_args (version ∷ k ∷ v ∷ rest) = record {
  key = (text_of k rest).0;
  value = (text_of v (text_of k rest).1).0;
  version = version;
}
decode_put_args _ = record { key = ""; value = ""; version = 0 }

decode-encode_put_args : (args : PutArgs) → decode_put_args (encode_put_args args) ≡ args
unfolding decode_put_args encode_put_args
decode-encode_put_args args =
    ap
      (λ (r : String × List ℕ). record {
        key = r.0;
        value = (text_of (size args.value) r.1).0;
        version = args.version;
      })
      (text_of-codes args.key (codes args.value ++ []))
    ∙ ap (λ (r : String × List ℕ). record { key = args.key; value = r.0; version = args.version })
        (text_of-codes args.value [])

encode_err : Err → ℕ
encode_err ok = 0
encode_err err_no_key = 1
encode_err err_version = 2
encode_err err_maybe = 3
encode_err err_wrong_leader = 4
encode_err err_wrong_group = 5
encode_err unset = 6

err_of : ℕ → Err
err_of n = elim (n == 0) [
  | true ↦ ok
  | false ↦ elim (n == 1) [
    | true ↦ err_no_key
    | false ↦ elim (n == 2) [
      | true ↦ err_version
      | false ↦ elim (n == 3) [
        | true ↦ err_maybe
        | false ↦ elim (n == 4) [
          | true ↦ err_wrong_leader
          | false ↦ elim (n == 5) [ true ↦ err_wrong_group | false ↦ unset ]
        ]
      ]
    ]
  ]
]

pub decode_put_reply : List ℕ → PutReply → Option PutReply
unfolding err_of
decode_put_reply (n ∷ []) reply = some (record { err = err_of n })
decode_put_reply _ reply = none

encode_put_reply : PutReply → List ℕ
unfolding encode_err
encode_put_reply reply = encode_err reply.err ∷ []

err_of-encode : (e : Err) → err_of (encode_err e) ≡ e
unfolding err_of encode_err
err_of-encode ok = refl
err_of-encode err_no_key = refl
err_of-encode err_version = refl
err_of-encode err_maybe = refl
err_of-encode err_wrong_leader = refl
err_of-encode err_wrong_group = refl
err_of-encode unset = refl

encode_get_reply : GetReply → List ℕ
unfolding size codes encode_err
encode_get_reply reply = encode_err reply.err ∷ reply.version ∷ size reply.value ∷ codes reply.value

decode_get_args : List ℕ → GetArgs
unfolding text_of
decode_get_args [] = record { key = "" }
decode_get_args (n ∷ rest) = record { key = (text_of n rest).0 }

pub coding : Coding
coding = record {
  decode_put = decode_put_args;
  encode_put = encode_put_args;
  decode_get = decode_get_args;
  encode_put_reply = encode_put_reply;
  encode_get_reply = encode_get_reply;
  decode-encode = decode-encode_put_args;
}

pub decode-encode_put_reply :
    (r : PutReply) → decode_put_reply (coding.encode_put_reply r) zero_put_reply ≡ some r
unfolding coding decode_put_reply encode_put_reply
decode-encode_put_reply r = ap (λ e. some (record { err = e })) (err_of-encode r.err)
