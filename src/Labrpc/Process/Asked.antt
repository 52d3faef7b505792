-- ===== src/Labrpc/Process/Asked.antt =====
-- labrpc/labrpc.go with kvsrv1/server.go behind it: what the requests whose handlers returned on the
-- way of a Put asked of each server, and the states that they make.
use linearizable_kv_store.Prelude.{
  ℕ, ◌≡◌, refl, sym, ap, ◌∙◌, Option, none, some, List, [], ◌∷◌, ◌++◌, inl, inr, ◌==◌, ==_iff,
  Bool-cases, true, false, if◌then◌else◌, Bool,
}
use linearizable_kv_store.Prelude.Family.{update}
use linearizable_kv_store.Rpc.{PutArgs}
use linearizable_kv_store.KvServer.{KvServer}
use linearizable_kv_store.Clerk.{Request, handle, handle_all, Fate, call_put}
use linearizable_kv_store.Clerk.Linear.{handle_all-append}
use linearizable_kv_store.Labrpc.{ReqMsg}
use linearizable_kv_store.Labrpc.Process.Once.{Act, served, own}
use linearizable_kv_store.Labrpc.Process.Kv.{Coding, read_request}

pub if_on : {A : Type 0} {b : Bool} {x : A} (y : A) → b ≡ true → (if b then x else y) ≡ x
if_on y p = rw p refl

pub if_off : {A : Type 0} {b : Bool} {y : A} (x : A) → b ≡ false → (if b then x else y) ≡ y
if_off x p = rw p refl

pub append_nil : {A : Type 0} (xs : List A) → xs ++ [] ≡ xs
append_nil [] = refl
append_nil (x ∷ xs) = ap (λ l. x ∷ l) (append_nil xs)

pub append_assoc : {A : Type 0} (xs ys zs : List A) → (xs ++ ys) ++ zs ≡ xs ++ (ys ++ zs)
append_assoc [] ys zs = refl
append_assoc (x ∷ xs) ys zs = ap (λ l. x ∷ l) (append_assoc xs ys zs)

-- The request, if it went to the server.
abbrev pub if_to : ℕ → ℕ → Request → List Request
if_to server j r = if server == j then r ∷ [] else []

-- One more request to a server, or to another.
pub handle_all-if_to :
    (base kv' : KvServer) (w : ℕ → KvServer) (rs : List Request) (server j : ℕ) (r : Request)
    → w j ≡ (handle_all base rs).0
    → kv' ≡ (handle (w server) r).0
    → update w server kv' j ≡ (handle_all base (rs ++ if_to server j r)).0
unfolding handle_all
handle_all-if_to base kv' w rs server j r h k = elim (Bool-cases (server == j)) [
  | inl p ↦ rw p (
      k
      ∙ ap (λ i. (handle (w i) r).0) ((==_iff server j).0 p)
      ∙ ap (λ s. (handle s r).0) h
      ∙ sym (handle_all-append base rs (r ∷ [])))
  | inr p ↦ rw p (h ∙ ap (λ l. (handle_all base l).0) (sym (append_nil rs)))
]

module _ (coding : Coding) where
  -- What others asked of server `j`, in the order in which their handlers returned.
  unfoldable pub requests_to : ℕ → List Act → List Request
  requests_to j [] = []
  requests_to j (own server ∷ later) = requests_to j later
  requests_to j (served q server ∷ later) =
      let rest = requests_to j later in
      elim (read_request coding q) [ none ↦ rest | some r ↦ if_to server j r ++ rest ]

  pub requests_to-append :
      (j : ℕ) (xs ys : List Act) → requests_to j (xs ++ ys) ≡ requests_to j xs ++ requests_to j ys
  unfolding requests_to
  requests_to-append j [] ys = refl
  requests_to-append j (own server ∷ xs) ys = requests_to-append j xs ys
  requests_to-append j (served q server ∷ xs) ys =
      go (read_request coding q) (requests_to-append j xs ys)
    where
      go :
          (o : Option Request)
          → requests_to j (xs ++ ys) ≡ requests_to j xs ++ requests_to j ys
          → elim o [
            | none ↦ requests_to j (xs ++ ys)
            | some r ↦ if_to server j r ++ requests_to j (xs ++ ys)
          ]
            ≡ elim o [ none ↦ requests_to j xs | some r ↦ if_to server j r ++ requests_to j xs ]
              ++ requests_to j ys
      go none h = h
      go (some r) h =
          ap (λ l. if_to server j r ++ l) h
          ∙ sym (append_assoc (if_to server j r) (requests_to j xs) (requests_to j ys))

  -- One server has handled `before`, then a Put with this fate, and then `later`; any other server has
  -- handled what others asked of it.
  abbrev pub state_after :
      (ℕ → KvServer) → List Act → PutArgs → ℕ → List Request → Fate → List Request → ℕ → KvServer
  state_after w done args server before fate later j =
      if server == j
      then (handle_all (call_put (handle_all (w j) before).0 args fate).0 later).0
      else (handle_all (w j) (requests_to j done)).0

  pub requests_to-served :
      (q : ReqMsg) (server j : ℕ) (r : Request) (done : List Act)
      → read_request coding q ≡ some r
      → requests_to j (done ++ served q server ∷ []) ≡ requests_to j done ++ if_to server j r
  unfolding requests_to
  requests_to-served q server j r done h =
      requests_to-append j done (served q server ∷ [])
      ∙ ap (λ l. requests_to j done ++ l)
          (ap
              (λ (o : Option Request). elim o as (λ _. List Request) [
                | none ↦ []
                | some r ↦ if_to server j r ++ []
              ])
              h
            ∙ append_nil (if_to server j r))
