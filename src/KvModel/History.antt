-- ===== src/KvModel/History.antt =====
-- models1/kv.go: the model's Partition, which divides a history into the operations on each key.
use Prim.Native.Nat.{Ordering}
use Prim.Native.String.{compare}
use mathlib.Core.Bool.{false≢true}
use text.Mathlib.TextEquality.{eq_iff}
use linearizable_kv_store.Prelude.{
  ℕ, ◌≡◌, refl, sym, ap, ◌∙◌, Bool, true, false, ◌||◌, Bool-cases, List, [], ◌∷◌, ◌++◌, String,
  str_eq, inl, inr, if◌then◌else◌, arith,
}
use linearizable_kv_store.KvModel.{KvInput, KvOutput}

-- porcupine.Operation
pub record Operation : Type 0 where
  pub client_id : ℕ
  pub input : KvInput
  pub call : ℕ
  pub output : KvOutput
  pub ret : ℕ

-- m[key] = append(m[key], v)
abbrev pub add : Operation → List (String × List Operation) → List (String × List Operation)
add v [] = (v.input.key, v ∷ []) ∷ []
add v ((k, ops) ∷ m) =
    let rest = add v m in if str_eq k v.input.key then (k, ops ++ v ∷ []) ∷ m else (k, ops) ∷ rest

-- The first loop.
abbrev pub group : List Operation → List (String × List Operation) → List (String × List Operation)
group [] m = m
group (v ∷ history) m = group history (add v m)

-- m[k]
abbrev pub at_key : String → List (String × List Operation) → List Operation
at_key key [] = []
at_key key ((k, ops) ∷ m) = if str_eq k key then ops else at_key key m

abbrev pub keys : List (String × List Operation) → List String
keys [] = []
keys ((k, _) ∷ m) = k ∷ keys m

abbrev before : String → String → Bool
before a b = elim (compare a b) [ Ordering.lt ↦ true | Ordering.eq ↦ true | Ordering.gt ↦ false ]

abbrev insert_string : String → List String → List String
insert_string k [] = k ∷ []
insert_string k (j ∷ ks) =
    let rest = insert_string k ks in if before k j then k ∷ j ∷ ks else j ∷ rest

-- sort.Strings
abbrev pub sort_strings : List String → List String
sort_strings [] = []
sort_strings (k ∷ ks) = insert_string k (sort_strings ks)

-- The last loop.
abbrev pub collect : List (String × List Operation) → List String → List (List Operation)
collect m [] = []
collect m (k ∷ ks) = at_key k m ∷ collect m ks

unfoldable pub partition : List Operation → List (List Operation)
partition history = let m = group history [] in collect m (sort_strings (keys m))

-- The operations on one key, in the order of the history.
abbrev pub ops_of : String → List Operation → List Operation
ops_of key [] = []
ops_of key (v ∷ history) =
    let rest = ops_of key history in if str_eq v.input.key key then v ∷ rest else rest

abbrev has : String → List String → Bool
has key [] = false
has key (k ∷ ks) = str_eq k key || has key ks

at_key-add :
    (key : String) (v : Operation) (m : List (String × List Operation))
    → at_key key (add v m)
      ≡ (if str_eq v.input.key key then at_key key m ++ v ∷ [] else at_key key m)
at_key-add key v [] = ground arith
at_key-add key v ((k, ops) ∷ m) = elim (Bool-cases (str_eq k v.input.key)) [
  | inl p ↦ elim (Bool-cases (str_eq k key)) [
    | inl q ↦ rw (p, ← (eq_iff k v.input.key).0 p, q) refl
    | inr q ↦ rw (p, ← (eq_iff k v.input.key).0 p, q) refl
  ]
  | inr p ↦ elim (Bool-cases (str_eq k key)) [
    | inl q ↦ rw (p, q, differs p q) refl
    | inr q ↦ rw (p, q) (at_key-add key v m)
  ]
]
  where
    differs : str_eq k v.input.key ≡ false → str_eq k key ≡ true → str_eq v.input.key key ≡ false
    differs p q = elim (Bool-cases (str_eq v.input.key key)) [
      | inl r ↦ absurd (
          false≢true (
            sym p
            ∙ (eq_iff k v.input.key).1 ((eq_iff k key).0 q ∙ sym ((eq_iff v.input.key key).0 r))))
      | inr r ↦ r
    ]

append_assoc : {A : Type 0} (xs ys zs : List A) → (xs ++ ys) ++ zs ≡ xs ++ (ys ++ zs)
append_assoc [] ys zs = refl
append_assoc (x ∷ xs) ys zs = ap (λ l. x ∷ l) (append_assoc xs ys zs)

append_nil : {A : Type 0} (xs : List A) → xs ++ [] ≡ xs
append_nil [] = refl
append_nil (x ∷ xs) = ap (λ l. x ∷ l) (append_nil xs)

at_key-group :
    (key : String) (history : List Operation) (m : List (String × List Operation))
    → at_key key (group history m) ≡ at_key key m ++ ops_of key history
at_key-group key [] m = sym (append_nil (at_key key m))
at_key-group key (v ∷ history) m =
    at_key-group key history (add v m)
    ∙ ap (λ l. l ++ ops_of key history) (at_key-add key v m)
    ∙ elim (Bool-cases (str_eq v.input.key key)) [
      | inl p ↦ rw p (append_assoc (at_key key m) (v ∷ []) (ops_of key history))
      | inr p ↦ rw p refl
    ]

abbrev per_key : List Operation → List String → List (List Operation)
per_key history [] = []
per_key history (k ∷ ks) = ops_of k history ∷ per_key history ks

-- Is there an operation on the key?
abbrev occurs : String → List Operation → Bool
occurs key [] = false
occurs key (v ∷ history) = str_eq v.input.key key || occurs key history

collect-per_key :
    (history : List Operation) (ks : List String)
    → collect (group history []) ks ≡ per_key history ks
collect-per_key history [] = refl
collect-per_key history (k ∷ ks) =
    rw (at_key-group k history []) (ap (λ l. ops_of k history ∷ l) (collect-per_key history ks))

has-insert_string :
    (key k : String) (ks : List String)
    → has key (insert_string k ks) ≡ (str_eq k key || has key ks)
has-insert_string key k [] = refl
has-insert_string key k (j ∷ ks) = ground (arith, has-insert_string key k ks)

has-sort_strings : (key : String) (ks : List String) → has key (sort_strings ks) ≡ has key ks
has-sort_strings key [] = refl
has-sort_strings key (k ∷ ks) =
    has-insert_string key k (sort_strings ks)
    ∙ ap (λ b. str_eq k key || b) (has-sort_strings key ks)

has-add :
    (key : String) (v : Operation) (m : List (String × List Operation))
    → has key (keys (add v m)) ≡ (str_eq v.input.key key || has key (keys m))
has-add key v [] = refl
has-add key v ((k, ops) ∷ m) = elim (Bool-cases (str_eq k v.input.key)) [
  | inl p ↦ rw (p, ← (eq_iff k v.input.key).0 p) (ground arith)
  | inr p ↦ rw p (ground (arith, has-add key v m))
]

has-group :
    (key : String) (history : List Operation) (m : List (String × List Operation))
    → has key (keys (group history m)) ≡ (has key (keys m) || occurs key history)
has-group key [] m = ground arith
has-group key (v ∷ history) m = has-group key history (add v m) ∙ ground (arith, has-add key v m)

-- Partition gives, for some list of keys that has every key of the history and no other, the operations
-- on each of them, in the order of the history.
partition-per_key :
    (history : List Operation)
    → (ks : List String) × (partition history ≡ per_key history ks)
      × ((key : String) → has key ks ≡ occurs key history)
unfolding partition
partition-per_key history = (
  sort_strings (keys (group history [])),
  collect-per_key history (sort_strings (keys (group history []))),
  λ key. has-sort_strings key (keys (group history [])) ∙ has-group key history [],
)
