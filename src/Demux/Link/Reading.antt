-- ===== src/Demux/Link/Reading.antt =====
-- tester1/demux: the steps of the reader.
use mathlib.Core.Bool.{false≢true}
use mathlib.Core.Option.{some-injective, none-ne-some}
use linearizable_kv_store.Prelude.{
  ℕ, ◌+◌, ◌≡◌, ◌⊎◌, inl, inr, refl, sym, ap, ◌∙◌, subst, Bool, true, false, none, some, List, ◌∷◌,
  ◌==◌, ==_iff, Bool-cases, if◌then◌else◌, arith,
}
use linearizable_kv_store.Prelude.Family.{update}
use linearizable_kv_store.Prelude.Assoc.{
  mem, Distinct, lookup, erase, has, lookup-erase, has-erase, Distinct-erase, has-lookup,
}
use linearizable_kv_store.Demux.{Ttag, Reply}
use linearizable_kv_store.Demux.Link.{
  fail, listening, returned, Wire, nothing, response, Reader, reading, sending, draining, failing,
  Link, reply, with_map,
}
use linearizable_kv_store.Demux.Link.Invariant.{
  holder, live, WireOk, CallOk, Left, ReaderOk, Serves, Invariant, Registered,
}
use linearizable_kv_store.Demux.Link.Parts.{
  erased, reply-found, weaken, found-Waits, read-CallOk, drain-CallOk,
}
use linearizable_kv_store.Demux.Link.Calling.{Busy, at_stage, still_unused}

module _ (serve : List ℕ → List ℕ → Bool → Type 0) where
  -- The reader goes on, and the map may close.
  pub goes_on-Invariant :
      (s : Link) (b : Bool) (r : Reader)
      → ((c : ℕ) → holder s.reader ≡ some c → holder r ≡ some c)
      → (live r ≡ true → live s.reader ≡ true)
      → ReaderOk serve s.callers s.asked b s.clnt.callmap.calls r
      → Invariant serve s
      → Invariant serve (record (with_map s (record s.clnt.callmap { closed = b })) { reader = r })
  goes_on-Invariant s b r f g ok i = record {
    next = i.next;
    unused = i.unused;
    distinct = i.distinct;
    tags = i.tags;
    calls = λ c.
        weaken serve c (s.asked c) (lookup (c + 1) s.clnt.callmap.calls) (holder s.reader)
          (holder r) (live s.reader) (live r) (s.callers c) (s.wires c) (f c) g (i.calls c);
    reader = ok;
  }

  -- The reader takes the tag of a call out of the map, and holds its reply.
  erased-Invariant :
      (s : Link) (c : ℕ) (r : Reader) (wires : ℕ → Wire)
      → ((d : ℕ) → (c == d) ≡ false → wires d ≡ s.wires d)
      → holder s.reader ≡ none
      → (live r ≡ true → live s.reader ≡ true)
      → CallOk serve c (s.asked c) none (holder r) (live r) (s.callers c) (wires c)
      → ReaderOk serve s.callers s.asked s.clnt.callmap.closed
          (erase (c + 1) s.clnt.callmap.calls)
          r
      → Invariant serve s
      → Invariant serve
          (record (with_map s (erased (c + 1) s.clnt.callmap)) { reader = r; wires = wires })
  erased-Invariant s c r wires same h g here ok i = record {
    next = i.next;
    unused = i.unused;
    distinct = Distinct-erase (c + 1) s.clnt.callmap.calls i.distinct;
    tags = λ t d e. i.tags t d (left t d (rw (lookup-erase (c + 1) t s.clnt.callmap.calls) at e));
    calls = λ d. elim (Bool-cases (c == d)) [
      | inl p ↦
          rw (lookup-erase (c + 1) (d + 1) s.clnt.callmap.calls, one d p, ← (==_iff c d).0 p) here
      | inr p ↦
          rw (lookup-erase (c + 1) (d + 1) s.clnt.callmap.calls, others d p, same d p)
            (weaken serve d (s.asked d) (lookup (d + 1) s.clnt.callmap.calls) (holder s.reader)
              (holder r) (live s.reader) (live r) (s.callers d) (s.wires d)
              (λ q. absurd (none-ne-some _ (sym h ∙ q))) g (i.calls d))
    ];
    reader = ok;
  }
    where
      left :
          (t d : ℕ)
          → (if t == c + 1 then none else lookup t s.clnt.callmap.calls) ≡ some d
          → lookup t s.clnt.callmap.calls ≡ some d
      left t d e = elim (Bool-cases (t == c + 1)) [
        | inl p ↦ absurd (none-ne-some _ (rw p at e))
        | inr p ↦ rw p at e
      ]

      one : (d : ℕ) → (c == d) ≡ true → (d + 1 == c + 1) ≡ true
      one d p = ground arith

      others : (d : ℕ) → (c == d) ≡ false → (d + 1 == c + 1) ≡ false
      others d p = ground arith

  -- The caller takes the reply that the reader has for it.
  taken-Invariant :
      (s : Link) (c : ℕ) (t : Ttag) (x : Reply) (r : Reader)
      → s.callers c ≡ listening t
      → holder s.reader ≡ some c
      → (live r ≡ true → live s.reader ≡ true)
      → lookup (c + 1) s.clnt.callmap.calls ≡ none
      → ((x ≡ fail) ⊎ Serves serve (s.asked c) x)
      → ReaderOk serve
          (update s.callers c (returned x))
          s.asked
          s.clnt.callmap.closed
          s.clnt.callmap.calls
          r
      → Invariant serve s
      → Invariant serve (record s { reader = r; callers = update s.callers c (returned x) })
  unfolding CallOk Busy
  taken-Invariant s c t x r l h g n v ok i = record {
    next = i.next;
    unused = still_unused serve s c (listening t) (returned x) l tt i;
    distinct = i.distinct;
    tags = i.tags;
    calls = λ d. elim (Bool-cases (c == d)) [
      | inl p ↦
          rw (p, ← (==_iff c d).0 p)
            (v, n, λ q. read_all (at_stage serve s c (listening t) l i).2 (g q))
      | inr p ↦ rw p (
          weaken serve d (s.asked d) (lookup (d + 1) s.clnt.callmap.calls) (holder s.reader)
            (holder r) (live s.reader) (live r) (s.callers d) (s.wires d)
            (λ q. absurd (another d p (some-injective c d (sym h ∙ q)))) g (i.calls d))
    ];
    reader = ok;
  }
    where
      another : (d : ℕ) → (c == d) ≡ false → c ≡ d → ⊥
      another d p e = ground (arith, e)

      read_all :
          Registered serve c
            (lookup (c + 1) s.clnt.callmap.calls)
            (holder s.reader)
            (live s.reader)
            (s.wires c)
          → live s.reader ≡ true
          → s.wires c ≡ nothing
      read_all (inl f) q = absurd (none-ne-some _ (sym n ∙ f))
      read_all (inr (_, _, m)) q = m q

  at_reader :
      (s : Link) (c : ℕ) (r : Reader) (wire : Wire)
      → s.reader ≡ r
      → s.wires c ≡ wire
      → Invariant serve s
      → CallOk serve c
          (s.asked c)
          (lookup (c + 1) s.clnt.callmap.calls)
          (holder r)
          (live r)
          (s.callers c)
          wire
  at_reader s c r wire at w i =
      subst
        (λ w.
          CallOk serve c (s.asked c) (lookup (c + 1) s.clnt.callmap.calls) (holder r) (live r)
            (s.callers c) w)
        w
        (subst
          (λ r.
            CallOk serve c (s.asked c) (lookup (c + 1) s.clnt.callmap.calls) (holder r) (live r)
              (s.callers c) (s.wires c))
          at (i.calls c))

  pub known_reader :
      (s : Link) (r : Reader)
      → s.reader ≡ r
      → Invariant serve s
      → ReaderOk serve s.callers s.asked s.clnt.callmap.closed s.clnt.callmap.calls r
  known_reader s r at i =
      subst (λ r. ReaderOk serve s.callers s.asked s.clnt.callmap.closed s.clnt.callmap.calls r) at
        i.reader

  pub reads-Invariant :
      (s : Link) (c : ℕ) (t : Ttag) (r : Reply)
      → s.reader ≡ reading
      → s.wires c ≡ response t r
      → Invariant serve s
      → Invariant serve
          (reply t (λ ch. sending ch r) (record s { wires = update s.wires c nothing }))
  unfolding holder live CallOk ReaderOk WireOk
  reads-Invariant s c t r at w i =
      let (l, e, v, f) =
        read-CallOk serve c (s.asked c) (lookup (c + 1) s.clnt.callmap.calls) (s.callers c) t r
          (at_reader s c reading (response t r) at w i) in
      rw
        (
          e,
          reply-found (c + 1) (λ ch. sending ch r) (record s { wires = update s.wires c nothing }) c
              f,
        )
        (erased-Invariant s c (sending c r) (update s.wires c nothing) (λ d p. rw p refl)
          (ap holder at) (λ _. ap live at)
          (rw (l, (==_iff c c).1 refl) (refl, tt, inr (refl, refl, λ _. refl)))
          (
            v,
            l,
            lookup-erase (c + 1) (c + 1) s.clnt.callmap.calls
                ∙ rw ((==_iff (c + 1) (c + 1)).1 refl) refl,
          )
          i)

  pub takes-Invariant :
      (s : Link) (c : ℕ) (t : Ttag) (r : Reply)
      → s.reader ≡ sending c r
      → s.callers c ≡ listening t
      → Invariant serve s
      → Invariant serve (record s { reader = reading; callers = update s.callers c (returned r) })
  unfolding holder live CallOk ReaderOk Busy
  takes-Invariant s c t r at l i =
      let (v, _, n) = known_reader s (sending c r) at i in
      taken-Invariant s c t r reading l (ap holder at) (λ _. ap live at) n (inr v) tt i

  pub drains-Invariant :
      (s : Link) (t : Ttag) (ts : List Ttag)
      → s.reader ≡ draining (t ∷ ts)
      → Invariant serve s
      → Invariant serve (reply t (λ ch. failing ch ts) s)
  unfolding holder live CallOk ReaderOk
  drains-Invariant s t ts at i =
      let (k, (d, same)) = known_reader s (draining (t ∷ ts)) at i in
      let (c, f) = has-lookup t s.clnt.callmap.calls (same t ∙ rw ((==_iff t t).1 refl) refl) in
      let e = i.tags t c f in
      let f' = sym (ap (λ j. lookup j s.clnt.callmap.calls) e) ∙ f in
      let here = at_reader s c (draining (t ∷ ts)) (s.wires c) at refl i in
      rw (reply-found t (λ ch. failing ch ts) s c f, e)
        (erased-Invariant s c (failing c ts) s.wires (λ j p. refl) (ap holder at)
          (λ q. absurd (false≢true q))
          (drain-CallOk serve c (s.asked c) (lookup (c + 1) s.clnt.callmap.calls) (s.callers c)
            (s.wires c) f' here)
          (
            k,
            left s.clnt.callmap.calls c e d same,
            found-Waits serve c (s.asked c) (lookup (c + 1) s.clnt.callmap.calls) none false
                (s.callers c) (s.wires c) here f',
            lookup-erase (c + 1) (c + 1) s.clnt.callmap.calls
                ∙ rw ((==_iff (c + 1) (c + 1)).1 refl) refl,
          )
          i)
    where
      left :
          (m : List (Ttag × ℕ)) (c : ℕ)
          → t ≡ c + 1
          → Distinct (t ∷ ts)
          → ((u : ℕ) → has u m ≡ mem u (t ∷ ts))
          → Left serve ts (erase (c + 1) m)
      left m c e d same = (
        d.1,
        λ u. has-erase (c + 1) u m ∙ elim (Bool-cases (u == t)) [
          | inl p ↦ rw (← e, (==_iff u t).0 p, (==_iff t t).1 refl) (sym d.0)
          | inr p ↦ rw (← e, p) (same u ∙ rw p refl)
        ],
      )

  pub takes_failure-Invariant :
      (s : Link) (c : ℕ) (t : Ttag) (ts : List Ttag)
      → s.reader ≡ failing c ts
      → s.callers c ≡ listening t
      → Invariant serve s
      → Invariant serve
          (record s { reader = draining ts; callers = update s.callers c (returned fail) })
  unfolding holder live CallOk ReaderOk Busy
  takes_failure-Invariant s c t ts at l i =
      let (k, left, _, n) = known_reader s (failing c ts) at i in
      taken-Invariant s c t fail (draining ts) l (ap holder at) (λ q. absurd (false≢true q)) n
        (inl refl) (k, left) i
