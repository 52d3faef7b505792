-- ===== src/Demux/Link/Moving.antt =====
-- tester1/demux: the steps of the callers after put, and of the server.
use linearizable_kv_store.Prelude.{
  ℕ, ◌+◌, ◌≡◌, inl, inr, refl, sym, ◌∙◌, subst, Bool, false, List, ◌==◌, ==_iff, Bool-cases,
}
use linearizable_kv_store.Prelude.Family.{update}
use linearizable_kv_store.Prelude.Assoc.{lookup}
use linearizable_kv_store.Demux.{Ttag}
use linearizable_kv_store.Demux.Link.{
  fail, Caller, tagged, queued, listening, returned, Wire, nothing, request, response, Link,
}
use linearizable_kv_store.Demux.Link.Invariant.{
  holder, live, WireOk, CallOk, Waits, Invariant, Registered,
}
use linearizable_kv_store.Demux.Link.Parts.{
  same-ReaderOk, write-ReaderOk, holder-listening, serve-CallOk, tagged-ne, queued-ne, request-ne,
  response-ne,
}
use linearizable_kv_store.Demux.Link.Calling.{Busy, at_stage, still_unused, moves-Invariant}

no_message :
    (serve : List ℕ → List ℕ → Bool → Type 0) (c : ℕ) (b : List ℕ) (wire : Wire)
    → wire ≡ nothing
    → WireOk serve c b wire
unfolding WireOk
no_message serve c b nothing h = tt
no_message serve c b (request t b') h = absurd (request-ne h)
no_message serve c b (response t r) h = absurd (response-ne h)

module _ (serve : List ℕ → List ℕ → Bool → Type 0) where
  tagged-not :
      (callers : ℕ → Caller) (c d : ℕ) (t : Ttag) (x : Caller)
      → callers c ≡ tagged t
      → Waits (callers d)
      → update callers c x d ≡ callers d
  tagged-not callers c d t x at w = rw (tagged-ne callers c d t at w) refl

  pub refused-Invariant :
      (s : Link) (c : ℕ) (t : Ttag)
      → s.callers c ≡ tagged t
      → Invariant serve s
      → Invariant serve (record s { callers = update s.callers c (returned fail) })
  unfolding CallOk Busy
  refused-Invariant s c t at i =
      let (e, w, n) = at_stage serve s c (tagged t) at i in
      moves-Invariant serve s c (tagged t) (returned fail) at tt (inl refl, n, λ _. w)
        (same-ReaderOk serve s.callers (update s.callers c (returned fail)) s.asked s.asked
          s.clnt.callmap.closed s.clnt.callmap.calls s.reader
          (λ d v. (tagged-not s.callers c d t (returned fail) at v, refl)) i.reader)
        i

  pub write_fails-Invariant :
      (s : Link) (c : ℕ) (t : Ttag)
      → s.callers c ≡ queued t
      → Invariant serve s
      → Invariant serve (record s { callers = update s.callers c (listening t) })
  unfolding CallOk Busy
  write_fails-Invariant s c t at i =
      let (e, w, reg) = at_stage serve s c (queued t) at i in
      moves-Invariant serve s c (queued t) (listening t) at tt
        (e, no_message serve c (s.asked c) (s.wires c) w, reg)
        (write-ReaderOk serve s.callers s.asked s.clnt.callmap.closed s.clnt.callmap.calls s.reader
          t c at i.reader)
        i

  pub writes-Invariant :
      (s : Link) (c : ℕ) (t : Ttag)
      → s.callers c ≡ queued t
      → Invariant serve s
      → Invariant serve (record s {
        callers = update s.callers c (listening t);
        wires = update s.wires c (request t (s.asked c));
      })
  unfolding CallOk WireOk Busy
  writes-Invariant s c t at i = record {
    next = i.next;
    unused = still_unused serve s c (queued t) (listening t) at tt i;
    distinct = i.distinct;
    tags = i.tags;
    calls = λ d. elim (Bool-cases (c == d)) [
      | inl p ↦ rw (p, ← (==_iff c d).0 p) (e, (e, refl), still reg)
      | inr p ↦ rw p (i.calls d)
    ];
    reader =
        write-ReaderOk serve s.callers s.asked s.clnt.callmap.closed s.clnt.callmap.calls s.reader t
          c at i.reader;
  }
    where
      e : t ≡ c + 1
      e = (at_stage serve s c (queued t) at i).0

      reg :
          Registered serve c
            (lookup (c + 1) s.clnt.callmap.calls)
            (holder s.reader)
            (live s.reader)
            (s.wires c)
      reg = (at_stage serve s c (queued t) at i).2

      still :
          Registered serve c
            (lookup (c + 1) s.clnt.callmap.calls)
            (holder s.reader)
            (live s.reader)
            (s.wires c)
          → Registered serve c
              (lookup (c + 1) s.clnt.callmap.calls)
              (holder s.reader)
              (live s.reader)
              (request t (s.asked c))
      still (inl r) = inl r
      still (inr (h, n, m)) = inr (
        h,
        n,
        λ q. absurd (
            queued-ne (
              sym at
              ∙ holder-listening serve s.callers s.asked s.clnt.callmap.closed s.clnt.callmap.calls
                  s.reader c i.reader h q)),
      )

  pub serves-Invariant :
      (s : Link) (c : ℕ) (t : Ttag) (b rep : List ℕ) (ok : Bool)
      → s.wires c ≡ request t b
      → serve b rep ok
      → Invariant serve s
      → Invariant serve (record s {
        wires = update s.wires c (response t (record { rep = rep; ok = ok; err = false }));
      })
  serves-Invariant s c t b rep ok at v i = record {
    next = i.next;
    unused = i.unused;
    distinct = i.distinct;
    tags = i.tags;
    calls = λ d. elim (Bool-cases (c == d)) [
      | inl p ↦ rw (p, ← (==_iff c d).0 p) served
      | inr p ↦ rw p (i.calls d)
    ];
    reader = i.reader;
  }
    where
      served :
          CallOk serve c
            (s.asked c)
            (lookup (c + 1) s.clnt.callmap.calls)
            (holder s.reader)
            (live s.reader)
            (s.callers c)
            (response t (record { rep = rep; ok = ok; err = false }))
      served =
          serve-CallOk serve c (s.asked c) (lookup (c + 1) s.clnt.callmap.calls) (holder s.reader)
            (live s.reader) (s.callers c) t b rep ok v
            (subst
              (λ w.
                CallOk serve c (s.asked c) (lookup (c + 1) s.clnt.callmap.calls) (holder s.reader)
                  (live s.reader) (s.callers c) w)
              at (i.calls c))
