-- ===== src/RfServer/Checker/Counted.antt =====
-- raft1/test.go: nCommitted on servers whose logs agree.
use linearizable_kv_store.Prelude.{
  ℕ, zero, suc, ◌+◌, ◌<◌, ◌≡◌, ◌⊎◌, inl, inr, refl, ap, ◌∙◌, subst, Bool, true, false, not, ◌&&◌,
  Option-cases, Option, none, some, ltb, arith,
}
use native.Mathlib.Decide.{dec_lt}
use linearizable_kv_store.RfServer.Checker.{
  Comparable, RaftServer, Test, is_error, tally, n_committed,
}
use linearizable_kv_store.RfServer.Checker.Agreement.{Consistent, Agree}

-- 1 for a server that has an entry at `index`.
abbrev pub holds : {C : Type 0} → Option (Option C) → ℕ
holds none = 0
holds (some c) = 1

-- How many of the first `k` servers have an entry at `index`.
unfoldable pub holders : {C : Type 0} → ℕ → ℕ → (ℕ → RaftServer C) → ℕ
holders zero index srvs = 0
holders (suc k) index srvs = holders k index srvs + holds ((srvs k).logs index)

module _ {C : Type 0} ⦃cmp : Comparable C⦄ where
  -- The loop so far: nobody has an entry, or the command is that of some server.
  Held : ℕ → ℕ → (ℕ → RaftServer C) → ℕ → Option C → Type 0
  Held k index srvs count cmd = (count ≡ 0) ⊎ ((j : ℕ) × (j < k) × ((srvs j).logs index ≡ some cmd))

  Tallied : ℕ → ℕ → (ℕ → RaftServer C) → Type 0
  Tallied k index srvs =
      (cmd : Option C) × (tally k index srvs ≡ some (holders k index srvs, cmd))
      × Held k index srvs (holders k index srvs) cmd
      × ((j : ℕ) → j < k → Consistent ((srvs j).logs index) (some cmd))

  -- The next command is the one so far, where there is one.
  agrees :
      (k index : ℕ) (srvs : ℕ → RaftServer C) (count : ℕ) (cmd c : Option C)
      → Held k index srvs count cmd
      → ((j : ℕ) → j < k → Consistent ((srvs j).logs index) (some c))
      → (ltb 0 count && not (cmp.same cmd c)) ≡ false
  unfolding Held Consistent
  agrees k index srvs count cmd c (inl none_yet) consistent = rw none_yet refl
  agrees k index srvs count cmd c (inr (j, lt, at)) consistent =
      let equal : cmd ≡ c = subst (λ x. Consistent x (some c)) at (consistent j lt) in
      rw ((cmp.same_iff cmd c).1 equal) (and-false (ltb 0 count))
    where
      and-false : (b : Bool) → (b && false) ≡ false
      and-false true = refl
      and-false false = refl

  nothing-Consistent : (o : Option (Option C)) (cmd : Option C) → o ≡ none → Consistent o (some cmd)
  unfolding Consistent
  nothing-Consistent none cmd h = tt
  nothing-Consistent (some c) cmd h = absurd (cc)

  still-Held :
      (k index : ℕ) (srvs : ℕ → RaftServer C) (count : ℕ) (cmd : Option C)
      → Held k index srvs count cmd
      → Held (suc k) index srvs (count + 0) cmd
  unfolding Held
  still-Held k index srvs count cmd (inl none_yet) = inl (omega arith)
  still-Held k index srvs count cmd (inr (j, lt, at)) = inr (j, omega arith, at)

  tally_step :
      (k index : ℕ) (srvs : ℕ → RaftServer C)
      → is_error (srvs k).apply_err ≡ false
      → ((j : ℕ) → j < suc k → Consistent ((srvs j).logs index) ((srvs k).logs index))
      → Tallied k index srvs
      → Tallied (suc k) index srvs
  unfolding Tallied tally holders
  tally_step k index srvs fine agree (cmd, so_far, held, consistent) =
      elim (Option-cases ((srvs k).logs index)) [
        | inl nothing ↦ (
          cmd,
          rw (fine, so_far, nothing) (ap (λ n. some (n, cmd)) (omega arith)),
          rw nothing (still-Held k index srvs (holders k index srvs) cmd held),
          λ j lt. elim (dec_lt j k) [
            | yes before ↦ consistent j before
            | no other ↦
                nothing-Consistent ((srvs j).logs index) cmd
                  (ap (λ a. (srvs a).logs index) (omega arith) ∙ nothing)
          ],
        )
        | inr (c, at) ↦
            (let same : (j : ℕ) → j < suc k → Consistent ((srvs j).logs index) (some c) =
                λ j lt. subst (Consistent ((srvs j).logs index)) at (agree j lt) in
              let equal =
                agrees k index srvs (holders k index srvs) cmd c held
                  (λ j lt. same j (omega arith)) in
              (c, rw (fine, so_far, at, equal) refl, unfold Held in inr (k, omega arith, at), same))
      ]

  tallies :
      (k index : ℕ) (srvs : ℕ → RaftServer C)
      → ((j : ℕ) → is_error (srvs j).apply_err ≡ false)
      → ((a b : ℕ) → a < k → b < k → Consistent ((srvs a).logs index) ((srvs b).logs index))
      → Tallied k index srvs
  tallies zero index srvs fine agree =
      unfold Tallied Held tally holders in (none, refl, inl refl, λ j lt. absurd (omega arith))
  tallies (suc k) index srvs fine agree =
      tally_step k index srvs (fine k) (λ j lt. agree j k lt (omega arith))
        (tallies k index srvs fine (λ a b la lb. agree a b (omega arith) (omega arith)))

  -- While no two servers have different commands at one index and none has an error, nCommitted returns the
  -- number of servers that have an entry at the index, and a command that the entry of each of them at that
  -- index is, if it has one.
  pub n_committed-Agree :
      (index : ℕ) (ts : Test C) (j : ℕ)
      → Agree ts
      → ((i : ℕ) → is_error (ts.srvs i).apply_err ≡ false)
      → j < ts.n
      → (cmd : Option C) × (n_committed index ts ≡ some (holders ts.n index ts.srvs, cmd))
        × Consistent ((ts.srvs j).logs index) (some cmd)
  unfolding Tallied n_committed
  n_committed-Agree index ts j agree fine lt =
      let (cmd, counted, _, consistent) =
        tallies ts.n index ts.srvs fine (λ a b la lb. agree a b index la lb) in
      (cmd, counted, consistent j lt)
