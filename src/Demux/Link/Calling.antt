-- ===== src/Demux/Link/Calling.antt =====
-- tester1/demux: the steps that begin a call, and those that move one call on.
use mathlib.Core.Option.{some-injective}
use linearizable_kv_store.Prelude.{
  ℕ, ◌+◌, ◌^◌, ◌≤◌, ◌<◌, ◌≡◌, ◌⊎◌, inl, inr, refl, sym, ap, ◌∙◌, subst, Bool, true, false, none,
  some, List, ◌∷◌, ◌==◌, ==_iff, Bool-cases, if◌then◌else◌, arith,
}
use linearizable_kv_store.Prelude.Family.{update}
use linearizable_kv_store.Prelude.Assoc.{lookup, erase, has, has-erase, Distinct-erase}
use linearizable_kv_store.Demux.{Ttag, tag}
use linearizable_kv_store.Demux.Link.{Caller, idle, tagged, queued, nothing, Link, with_map}
use linearizable_kv_store.Demux.Link.Invariant.{holder, live, CallOk, Waits, ReaderOk, Invariant}
use linearizable_kv_store.Demux.Link.Parts.{lookup-put, put-ReaderOk, same-ReaderOk}

-- A call that has been made.
unfoldable pub Busy : Caller → Type 0
Busy idle = ⊥
Busy _ = Unit

module _ (serve : List ℕ → List ℕ → Bool → Type 0) where
  -- One call, at a stage that is known.
  pub at_stage :
      (s : Link) (c : ℕ) (k : Caller)
      → s.callers c ≡ k
      → Invariant serve s
      → CallOk serve c
          (s.asked c)
          (lookup (c + 1) s.clnt.callmap.calls)
          (holder s.reader)
          (live s.reader)
          k
          (s.wires c)
  at_stage s c k at i =
      subst
        (λ k.
          CallOk serve c (s.asked c) (lookup (c + 1) s.clnt.callmap.calls) (holder s.reader)
            (live s.reader) k (s.wires c))
        at (i.calls c)

  -- A call that has not been made is not the one that moves.
  pub still_unused :
      (s : Link) (c : ℕ) (k x : Caller)
      → s.callers c ≡ k
      → Busy k
      → Invariant serve s
      → (d : ℕ) → s.issued ≤ d
      → update s.callers c x d ≡ idle
  unfolding Busy
  still_unused s c k x at busy i d h = elim (Bool-cases (c == d)) [
    | inl p ↦ absurd (subst Busy (sym at ∙ ap s.callers ((==_iff c d).0 p) ∙ i.unused d h) busy)
    | inr p ↦ rw p (i.unused d h)
  ]

  idle-Waits : (caller : Caller) → caller ≡ idle → Waits caller → ⊥
  unfolding Waits
  idle-Waits caller h w = subst Waits h w

  pub calls-Invariant :
      (b : List ℕ) (s : Link)
      → s.issued + 1 < 2 ^ 32
      → Invariant serve s
      → Invariant serve (record s {
        clnt = (tag s.clnt).0;
        issued = s.issued + 1;
        asked = update s.asked s.issued b;
        callers = update s.callers s.issued (tagged (tag s.clnt).1);
      })
  unfolding tag CallOk
  calls-Invariant b s bound i = record {
    next = omega (arith, i.next);
    unused = λ c h. rw (later c h) (i.unused c (omega arith));
    distinct = i.distinct;
    tags = i.tags;
    calls = λ c. elim (Bool-cases (s.issued == c)) [
      | inl p ↦ rw p (new c ((==_iff s.issued c).0 p))
      | inr p ↦ rw p (i.calls c)
    ];
    reader =
        same-ReaderOk serve s.callers _ s.asked _ s.clnt.callmap.closed s.clnt.callmap.calls
          s.reader (λ d w. old d w (Bool-cases (s.issued == d))) i.reader;
  }
    where
      later : (c : ℕ) → s.issued + 1 ≤ c → (s.issued == c) ≡ false
      later c h = ground arith

      at_issued : (d : ℕ) → (s.issued == d) ≡ true → s.issued ≤ d
      at_issued d p = ground arith

      old :
          (d : ℕ)
          → Waits (s.callers d)
          → ((s.issued == d) ≡ true) ⊎ ((s.issued == d) ≡ false)
          → (update s.callers s.issued (tagged s.clnt.next_tag) d ≡ s.callers d)
            × (update s.asked s.issued b d ≡ s.asked d)
      old d w (inl p) = absurd (idle-Waits (s.callers d) (i.unused d (at_issued d p)) w)
      old d w (inr p) = rw p (refl, refl)

      new :
          (c : ℕ)
          → s.issued ≡ c
          → CallOk serve c b
              (lookup (c + 1) s.clnt.callmap.calls)
              (holder s.reader)
              (live s.reader)
              (tagged s.clnt.next_tag)
              (s.wires c)
      new c e =
          let (w, n) = at_stage s c idle (i.unused c (omega (arith, e))) i in
          (omega (arith, i.next, e), w, n)

  pub puts-Invariant :
      (s : Link) (c : ℕ) (t : Ttag)
      → s.callers c ≡ tagged t
      → s.clnt.callmap.closed ≡ false
      → Invariant serve s
      → Invariant serve
          (record (with_map s
            (record s.clnt.callmap { calls = (t, c) ∷ erase t s.clnt.callmap.calls })) {
              callers = update s.callers c (queued t);
            })
  unfolding CallOk Busy
  puts-Invariant s c t at open_map i = record {
    next = i.next;
    unused = still_unused s c (tagged t) (queued t) at tt i;
    distinct = (erased_self, Distinct-erase t s.clnt.callmap.calls i.distinct);
    tags = λ j d h. new_tag j d (rw (lookup-put t j c s.clnt.callmap.calls) at h);
    calls = λ d. elim (Bool-cases (c == d)) [
      | inl p ↦ rw (p, lookup-put t (d + 1) c s.clnt.callmap.calls) (here d p)
      | inr p ↦ rw (p, lookup-put t (d + 1) c s.clnt.callmap.calls, other d p) (i.calls d)
    ];
    reader =
        subst
          (λ b.
            ReaderOk serve (update s.callers c (queued t)) s.asked b
              ((t, c) ∷ erase t s.clnt.callmap.calls) s.reader)
          (sym open_map)
          (put-ReaderOk serve s.callers s.asked s.clnt.callmap.calls s.reader t c at known.0 (
            subst (λ b. ReaderOk serve s.callers s.asked b s.clnt.callmap.calls s.reader) open_map
              i.reader));
  }
    where
      known : (t ≡ c + 1) × (s.wires c ≡ nothing) × (lookup (c + 1) s.clnt.callmap.calls ≡ none)
      known = at_stage s c (tagged t) at i

      erased_self : has t (erase t s.clnt.callmap.calls) ≡ false
      erased_self = has-erase t t s.clnt.callmap.calls ∙ rw ((==_iff t t).1 refl) refl

      new_tag :
          (j d : ℕ)
          → (if j == t then some c else lookup j s.clnt.callmap.calls) ≡ some d
          → j ≡ d + 1
      new_tag j d h = elim (Bool-cases (j == t)) [
        | inl p ↦ (==_iff j t).0 p ∙ known.0 ∙ ap (λ n. n + 1) (some-injective c d (rw p at h))
        | inr p ↦ i.tags j d (rw p at h)
      ]

      other : (d : ℕ) → (c == d) ≡ false → (d + 1 == t) ≡ false
      other d p = ground (arith, known.0)

      here :
          (d : ℕ)
          → (c == d) ≡ true
          → CallOk serve d
              (s.asked d)
              (if d + 1 == t then some c else lookup (d + 1) s.clnt.callmap.calls)
              (holder s.reader)
              (live s.reader)
              (queued t)
              (s.wires d)
      here d p =
          let e = (==_iff c d).0 p in
          (
            known.0 ∙ ap (λ n. n + 1) e,
            sym (ap s.wires e) ∙ known.1,
            inl (rw ((==_iff (d + 1) t).1 (sym (known.0 ∙ ap (λ n. n + 1) e))) (ap some e)),
          )

  -- A call comes to a stage where it does not wait, or where the map decides as before.
  pub moves-Invariant :
      (s : Link) (c : ℕ) (k x : Caller)
      → s.callers c ≡ k
      → Busy k
      → CallOk serve c
          (s.asked c)
          (lookup (c + 1) s.clnt.callmap.calls)
          (holder s.reader)
          (live s.reader)
          x
          (s.wires c)
      → ReaderOk serve
          (update s.callers c x)
          s.asked
          s.clnt.callmap.closed
          s.clnt.callmap.calls
          s.reader
      → Invariant serve s
      → Invariant serve (record s { callers = update s.callers c x })
  moves-Invariant s c k x at busy ok reader i = record {
    next = i.next;
    unused = still_unused s c k x at busy i;
    distinct = i.distinct;
    tags = i.tags;
    calls = λ d. elim (Bool-cases (c == d)) [
      | inl p ↦ rw (p, ← (==_iff c d).0 p) ok
      | inr p ↦ rw p (i.calls d)
    ];
    reader = reader;
  }
