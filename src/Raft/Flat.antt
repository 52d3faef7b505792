-- ===== src/Raft/Flat.antt =====
-- raft1/raft.go: a coding of the persistent fields by numbers, for the tests.
use linearizable_kv_store.Prelude.{
  ℕ, zero, suc, ◌<◌, ◌≡◌, refl, Option, none, some, List, [], ◌∷◌, length, arith,
}
use linearizable_kv_store.Raft.{LogEntry, Persistent, Codec}

-- A number stands for an option: 0 for none.
abbrev pub write_option : Option ℕ → ℕ
write_option none = 0
write_option (some n) = suc n

abbrev pub read_option : ℕ → Option ℕ
read_option zero = none
read_option (suc n) = some n

abbrev pub write_log : List (LogEntry ℕ) → List ℕ
write_log [] = []
write_log (e ∷ log) = e.term ∷ write_option e.command ∷ write_log log

abbrev pub read_log : List ℕ → List (LogEntry ℕ)
read_log [] = []
read_log (t ∷ []) = []
read_log (t ∷ c ∷ bytes) = record { term = t; command = read_option c } ∷ read_log bytes

abbrev pub write : Persistent ℕ → List ℕ
write p =
    p.current_term
    ∷ write_option p.voted_for
    ∷ p.last_included_index
    ∷ p.last_included_term
    ∷ write_log p.log

abbrev pub read : List ℕ → Option (Persistent ℕ)
read (t ∷ v ∷ i ∷ u ∷ bytes) = some (record {
  current_term = t;
  voted_for = read_option v;
  log = read_log bytes;
  last_included_index = i;
  last_included_term = u;
})
read _ = none

pub read-write_option : (o : Option ℕ) → read_option (write_option o) ≡ o
read-write_option none = refl
read-write_option (some n) = refl

pub read-write_log : (log : List (LogEntry ℕ)) → read_log (write_log log) ≡ log
read-write_log [] = refl
read-write_log (e ∷ log) = rw (read-write_option e.command, read-write_log log) refl

pub read-write : (p : Persistent ℕ) → read (write p) ≡ some p
read-write p = rw (read-write_option p.voted_for, read-write_log p.log) refl

pub write_pos : (p : Persistent ℕ) → 0 < length (write p)
write_pos p = omega arith

instance abbrev pub flat : Codec ℕ
flat = record { encode = write; decode = read; decode-encode = read-write; encode_pos = write_pos }
