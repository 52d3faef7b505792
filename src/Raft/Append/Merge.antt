-- ===== src/Raft/Append/Merge.antt =====
-- raft1/raft.go: what the loop of AppendEntries over its entries makes of the log.
use linearizable_kv_store.Prelude.{
  ℕ, zero, suc, ◌+◌, ◌-◌, ◌≤◌, ◌<◌, ◌≡◌, ◌≢◌, ◌⊎◌, inl, inr, refl, sym, ◌∙◌, ap, subst, false,
  Option, none, some, List, [], ◌∷◌, ◌++◌, length, take, drop, get_elem?, get_elem?-some, ltb, ◌==◌,
  ==_iff, arith, Bool-cases,
}
use mathlib.Core.Bool.{false≢true}
use mathlib.Core.Option.{some-injective, none-ne-some}
use linearizable_kv_store.Prelude.Panic.{◌>>=◌}
use linearizable_kv_store.Raft.{Raft, LogEntry}
use linearizable_kv_store.Raft.State.{last_log_index, term_at, term_of}
use linearizable_kv_store.Raft.Append.{merge}

take-length {ℓ} : {A : Type ℓ} (xs : List A) (n : ℕ) → length xs ≤ n → take n xs ≡ xs
take-length [] zero h = refl
take-length [] (suc n) h = refl
take-length (x ∷ xs) zero h = absurd (omega arith)
take-length (x ∷ xs) (suc n) h = ap (λ ys. x ∷ ys) (take-length xs n (omega arith))

get_elem?-none {ℓ} : {A : Type ℓ} (xs : List A) (i : ℕ) → length xs ≤ i → get_elem? xs i ≡ none
get_elem?-none [] i h = refl
get_elem?-none (x ∷ xs) zero h = absurd (omega arith)
get_elem?-none (x ∷ xs) (suc i) h = get_elem?-none xs i (omega arith)

plus_zero : (n : ℕ) → n + 0 ≡ n
plus_zero n = omega arith

plus_suc : (n m : ℕ) → n + suc m ≡ n + 1 + m
plus_suc n m = omega arith

plus_sub : (n m : ℕ) → n + m - n ≡ m
plus_sub n m = omega arith

not_below : (i n m : ℕ) → i ≡ n + m → ltb i n ≡ false
not_below i n m e = ground arith

module _ {C : Type 0} where
  -- The term at an offset of a log, if the log is that long.
  abbrev pub term_in : List (LogEntry C) → ℕ → Option ℕ
  term_in log n = get_elem? log n >>= term_of

  -- The first `same` entries have the terms that the log has from `offset` on. If that is all of them
  -- the log stays, whatever follows; else it is cut before the first that differs or is not there,
  -- and takes the rest of the entries.
  pub record Merged (offset : ℕ) (entries log log' : List (LogEntry C)) : Type 0 where
    pub same : ℕ
    pub agree : (k : ℕ) → k < same → term_in log (offset + k) ≡ term_in entries k
    pub outcome :
        ((same ≡ length entries) × (log' ≡ log))
        ⊎ ((same < length entries)
            × (term_in log (offset + same) ≢ term_in entries same)
            × (log' ≡ take (offset + same) log ++ drop same entries))

  first_differs :
      (offset : ℕ) (e : LogEntry C) (es log : List (LogEntry C))
      → term_in log offset ≢ some e.term
      → Merged offset (e ∷ es) log (take offset log ++ e ∷ es)
  first_differs offset e es log h = record {
    same = 0;
    agree = λ k below. absurd (omega arith);
    outcome = inr (omega arith, rw (plus_zero offset) h, rw (plus_zero offset) refl);
  }

  first_agrees :
      {offset : ℕ} (e : LogEntry C) {es log log' : List (LogEntry C)}
      → term_in log offset ≡ some e.term
      → Merged (offset + 1) es log log'
      → Merged offset (e ∷ es) log log'
  first_agrees {offset} e {es} {log} h m = record {
    same = suc m.same;
    agree = agree;
    outcome = elim m.outcome [
      | inl (s, l) ↦ inl (ap suc s, l)
      | inr (s, d, l) ↦
          inr (omega arith, rw (plus_suc offset m.same) d, rw (plus_suc offset m.same) l)
    ];
  }
    where
      agree : (k : ℕ) → k < suc m.same → term_in log (offset + k) ≡ term_in (e ∷ es) k
      agree zero below = rw (plus_zero offset) h
      agree (suc k) below = rw (plus_suc offset k) (m.agree k (omega arith))

  term_at_offset :
      (rf : Raft C) (index offset : ℕ)
      → index ≡ rf.last_included_index + offset
      → term_at rf index ≡ term_in rf.log offset
  unfolding term_at
  term_at_offset rf index offset at =
      rw
        (
          not_below index rf.last_included_index offset at,
          ap (λ i. i - rf.last_included_index) at,
          plus_sub rf.last_included_index offset,
        )
        refl

  missing :
      (log : List (LogEntry C)) (offset : ℕ) {t : ℕ}
      → get_elem? log offset ≡ none
      → term_in log offset ≢ some t
  missing log offset {t} e h = none-ne-some t (sym (ap (λ o. o >>= term_of) e) ∙ h)

  -- The loop of AppendEntries, from an index at `offset` of the log, returns; it changes the log
  -- alone. It goes past the longest run of entries that have the terms of the log there: if that is
  -- all of them, the log stays as it is, with whatever follows; else the log is cut at the first that
  -- differs or is not there, and ends with the rest of the entries.
  pub merge-Merged :
      (entries : List (LogEntry C)) (index offset : ℕ) (rf : Raft C)
      → index ≡ rf.last_included_index + offset
      → 0 < offset
      → offset ≤ length rf.log
      → (log : List (LogEntry C)) × (merge index entries rf ≡ some (record rf { log = log }))
        × Merged offset entries rf.log log
  unfolding merge
  merge-Merged [] index offset rf at pos low = (
    rf.log,
    refl,
    record { same = 0; agree = λ k below. absurd (omega arith); outcome = inl (refl, refl) },
  )
  merge-Merged (e ∷ es) index offset rf at pos low =
      elim (Bool-cases (ltb (last_log_index rf) index)) [
        | inl p ↦
            let high : length rf.log ≤ offset = ground arith in
            rw p (
              rf.log ++ e ∷ es,
              refl,
              subst (λ l. Merged offset (e ∷ es) rf.log (l ++ e ∷ es))
                  (take-length rf.log offset high)
                  (first_differs offset e es rf.log
                    (missing rf.log offset (get_elem?-none rf.log offset high))),
            )
        | inr p ↦
            let inside : offset < length rf.log = ground arith in
            let (x, found) = get_elem?-some rf.log offset inside in
            let (log, run, m) =
              merge-Merged es (index + 1) (offset + 1) rf (omega arith) (omega arith)
                (omega arith) in
            let here : term_at rf index ≡ some x.term =
              term_at_offset rf index offset at ∙ ap (λ o. o >>= term_of) found in
            elim (Bool-cases (x.term == e.term)) [
              | inl q ↦
                  rw (p, here, q)
                    (
                      log,
                      run,
                      first_agrees e
                          (ap (λ o. o >>= term_of) found ∙ ap some ((==_iff x.term e.term).0 q)) m,
                    )
              | inr q ↦
                  rw
                    (
                      p,
                      here,
                      q,
                      ap (λ i. i - rf.last_included_index) at,
                      plus_sub rf.last_included_index offset,
                    )
                    (
                      take offset rf.log ++ e ∷ es,
                      refl,
                      first_differs offset e es rf.log (λ h. false≢true (
                          sym q
                          ∙ (==_iff x.term e.term).1
                              (some-injective _ _ (sym (ap (λ o. o >>= term_of) found) ∙ h)))),
                    )
            ]
      ]
