-- ===== src/RfServer/Checker/Agreement.antt =====
-- raft1/test.go: CheckLogs passes what keeps the servers' logs in agreement, and nCommitted counts it.
use mathlib.Core.Bool.{false≢true}
use linearizable_kv_store.Prelude.{
  ℕ, zero, suc, ◌<◌, ◌≡◌, ◌≢◌, ◌⊎◌, inl, inr, refl, sym, ap, ◌∙◌, subst, Bool, true, false, not,
  Bool-cases, Option, none, some, ◌==◌, ==_iff, arith,
}
use native.Mathlib.Decide.{dec_lt}
use linearizable_kv_store.Raft.Apply.{ApplyMsg}
use linearizable_kv_store.RfServer.{ErrMsg, no_error, conflict}
use linearizable_kv_store.RfServer.Checker.{
  Comparable, RaftServer, Test, differs, find_conflict, check_logs,
}

-- Two entries that are both there are the same.
unfoldable pub Consistent : {C : Type 0} → Option (Option C) → Option (Option C) → Type 0
Consistent none b = Unit
Consistent (some a) none = Unit
Consistent (some a) (some b) = a ≡ b

Consistent-sym : {C : Type 0} (a b : Option (Option C)) → Consistent a b → Consistent b a
unfolding Consistent
Consistent-sym none none h = tt
Consistent-sym none (some b) h = tt
Consistent-sym (some a) none h = tt
Consistent-sym (some a) (some b) h = sym h

-- No two servers have different commands at one index.
abbrev pub Agree : {C : Type 0} → Test C → Type 0
Agree ts =
    (a b index : ℕ)
    → a < ts.n
    → b < ts.n
    → Consistent ((ts.srvs a).logs index) ((ts.srvs b).logs index)

index_of : ErrMsg → Bool
index_of (conflict a b c) = true
index_of _ = false

other_of : ErrMsg → ℕ
other_of (conflict a b c) = c
other_of _ = 0

module _ {C : Type 0} ⦃cmp : Comparable C⦄ where
  same-Consistent :
      (old : Option (Option C)) (v : Option C) → differs old v ≡ false → Consistent old (some v)
  unfolding Consistent
  same-Consistent none v h = tt
  same-Consistent (some old) v h = (cmp.same_iff old v).0 (not-false (cmp.same old v) h)
    where
      not-false : (b : Bool) → not b ≡ false → b ≡ true
      not-false true h = refl
      not-false false h = absurd (false≢true (sym h))

  differs-old :
      (old : Option (Option C)) (v : Option C)
      → differs old v ≡ true
      → (c : Option C) × (old ≡ some c) × (c ≢ v)
  differs-old none v h = absurd (false≢true h)
  differs-old (some old) v h =
      (old, refl, λ e. false≢true (sym (ap not ((cmp.same_iff old v).1 e)) ∙ h))

  passed :
      (k i : ℕ) (m : ApplyMsg C) (srvs : ℕ → RaftServer C) (j : ℕ)
      → find_conflict k i m srvs ≡ no_error
      → j < k
      → Consistent ((srvs j).logs m.command_index) (some m.command)
  unfolding find_conflict index_of
  passed zero i m srvs j h lt = absurd (omega arith)
  passed (suc k) i m srvs j h lt =
      elim (Bool-cases (differs ((srvs k).logs m.command_index) m.command)) [
        | inl d ↦ absurd (false≢true (sym (ap index_of (rw d at h))))
        | inr d ↦ elim (dec_lt j k) [
          | yes before ↦ passed k i m srvs j (rw d at h) before
          | no other ↦
              subst (λ k. Consistent ((srvs k).logs m.command_index) (some m.command)) (omega arith)
                (same-Consistent ((srvs k).logs m.command_index) m.command d)
        ]
      ]

  -- A server with another command at the index of the message.
  abbrev pub Conflicts : ℕ → ApplyMsg C → (ℕ → RaftServer C) → Type 0
  Conflicts j m srvs =
      (old : Option C) × ((srvs j).logs m.command_index ≡ some old) × (old ≢ m.command)

  failed :
      (k i : ℕ) (m : ApplyMsg C) (srvs : ℕ → RaftServer C)
      → (find_conflict k i m srvs ≡ no_error)
        ⊎ ((j : ℕ) × (j < k)
            × (find_conflict k i m srvs ≡ conflict m.command_index i j)
            × Conflicts j m srvs)
  unfolding find_conflict
  failed zero i m srvs = inl refl
  failed (suc k) i m srvs = elim (Bool-cases (differs ((srvs k).logs m.command_index) m.command)) [
    | inl d ↦
        inr (k, omega arith, rw d refl, differs-old ((srvs k).logs m.command_index) m.command d)
    | inr d ↦ elim (failed k i m srvs) [
      | inl none_yet ↦ inl (rw d none_yet)
      | inr (j, lt, found, c) ↦ inr (j, omega arith, rw d found, c)
    ]
  ]

  entry_cases :
      (i a index : ℕ) (m : ApplyMsg C) (ts : Test C)
      → ((index ≡ m.command_index) × (((check_logs i m ts).0.srvs a).logs index ≡ some m.command))
        ⊎ (((check_logs i m ts).0.srvs a).logs index ≡ (ts.srvs a).logs index)
  unfolding check_logs
  entry_cases i a index m ts = elim (Bool-cases (i == a)) [
    | inr other ↦ inr (rw other refl)
    | inl p ↦ elim (Bool-cases (m.command_index == index)) [
      | inl q ↦ inl (sym ((==_iff m.command_index index).0 q), rw (p, q) refl)
      | inr q ↦ inr (rw (p, q) (ap (λ k. (ts.srvs k).logs index) ((==_iff i a).0 p)))
    ]
  ]

  -- One of two entries is the new one.
  new-Consistent :
      (i b index : ℕ) (m : ApplyMsg C) (ts : Test C)
      → find_conflict ts.n i m ts.srvs ≡ no_error
      → b < ts.n
      → index ≡ m.command_index
      → Consistent (some m.command) (((check_logs i m ts).0.srvs b).logs index)
  unfolding Consistent
  new-Consistent i b index m ts ok lt e = elim (entry_cases i b index m ts) [
    | inl (_, new) ↦ subst (Consistent (some m.command)) (sym new) refl
    | inr old ↦
        subst (Consistent (some m.command)) (sym (old ∙ ap (ts.srvs b).logs e))
          (Consistent-sym _ _ (passed ts.n i m ts.srvs b ok lt))
  ]

  passed-Agree :
      (i : ℕ) (m : ApplyMsg C) (ts : Test C)
      → Agree ts
      → find_conflict ts.n i m ts.srvs ≡ no_error
      → Agree (check_logs i m ts).0
  unfolding check_logs
  passed-Agree i m ts agree ok a b index la lb = elim (entry_cases i a index m ts) [
    | inl (e, new) ↦
        subst (λ x. Consistent x (((check_logs i m ts).0.srvs b).logs index)) (sym new)
          (new-Consistent i b index m ts ok lb e)
    | inr old_a ↦ elim (entry_cases i b index m ts) [
      | inl (e, new) ↦ Consistent-sym _ _ (
          subst (λ x. Consistent x (((check_logs i m ts).0.srvs a).logs index)) (sym new)
            (new-Consistent i a index m ts ok la e))
      | inr old_b ↦
          subst (λ x. Consistent x (((check_logs i m ts).0.srvs b).logs index)) (sym old_a)
            (subst (Consistent ((ts.srvs a).logs index)) (sym old_b) (agree a b index la lb))
    ]
  ]

  -- What CheckLogs comes to: no error, and the servers still agree; or the error names a server below
  -- `n` that has another command at that index.
  pub data Checked (i : ℕ) (m : ApplyMsg C) (ts : Test C) : Type 0 where
    passes : (check_logs i m ts).1 ≡ no_error → Agree (check_logs i m ts).0 → Checked i m ts
    fails :
        (j : ℕ)
        → j < ts.n
        → (check_logs i m ts).1 ≡ conflict m.command_index i j
        → Conflicts j m ts.srvs
        → Checked i m ts

  -- While no two servers have different commands at one index, CheckLogs of any message either reports no
  -- error, and then no two servers have different commands at one index after it has noted the message's
  -- command; or it reports a conflict at the message's index with a server that does have another
  -- command there.
  pub check_logs-Checked : (i : ℕ) (m : ApplyMsg C) (ts : Test C) → Agree ts → Checked i m ts
  unfolding check_logs
  check_logs-Checked i m ts agree = elim (failed ts.n i m ts.srvs) [
    | inl ok ↦ passes ok (passed-Agree i m ts agree ok)
    | inr (j, lt, found, c) ↦ fails j lt found c
  ]
