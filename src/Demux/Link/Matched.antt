-- ===== src/Demux/Link/Matched.antt =====
-- tester1/demux: every state of a connection that is reached, and what a call returns.
use mathlib.Core.Bool.{false≢true, true≢false}
use mathlib.Core.Option.{none-ne-some}
use linearizable_kv_store.Prelude.{
  ℕ, ◌+◌, ◌^◌, ◌≤◌, ◌<◌, ◌≡◌, ◌≢◌, ◌⊎◌, inl, inr, refl, sym, ap, ◌∙◌, subst, Bool, true, Option,
  none, List, [], Option-cases, arith,
}
use linearizable_kv_store.Prelude.Family.{update}
use linearizable_kv_store.Prelude.Assoc.{keys, lookup, lookup-has}
use linearizable_kv_store.Demux.{
  Ttag, close, put, remove, outstanding, new_demux_clnt, new_call_map, Reply,
}
use linearizable_kv_store.Demux.Link.{
  fail, Caller, idle, tagged, queued, listening, returned, Wire, nothing, Reader, sending, broken,
  stopping, draining, failing, finished, fatal, Link, reply, with_map, new_link, Step, calls, puts,
  is_refused, writes, write_fails, serves, reads, takes, read_fails, closes_map, lists, drains,
  takes_failure, ends, closes, Reach, begin, next,
}
use linearizable_kv_store.Demux.Link.Invariant.{
  holder, live, CallOk, Waits, ReaderOk, Serves, Invariant,
}
use linearizable_kv_store.Demux.Link.Parts.{put-some, close-ReaderOk}
use linearizable_kv_store.Demux.Link.Calling.{at_stage, calls-Invariant, puts-Invariant}
use linearizable_kv_store.Demux.Link.Moving.{
  refused-Invariant, write_fails-Invariant, writes-Invariant, serves-Invariant,
}
use linearizable_kv_store.Demux.Link.Reading.{
  goes_on-Invariant, known_reader, reads-Invariant, takes-Invariant, drains-Invariant,
  takes_failure-Invariant,
}

module _ (serve : List ℕ → List ℕ → Bool → Type 0) where
  step-Invariant :
      {s s' : Link} → s'.issued < 2 ^ 32 → Step serve s s' → Invariant serve s → Invariant serve s'
  unfolding holder live ReaderOk close outstanding
  step-Invariant {s} bound (calls b) i = calls-Invariant serve b s bound i
  step-Invariant {s} bound (puts c t at p) i =
      let (k, e) = put-some t c s.clnt.callmap p in
      subst
        (λ m. Invariant serve (record (with_map s m) { callers = update s.callers c (queued t) }))
        (sym e) (puts-Invariant serve s c t at k i)
  step-Invariant {s} bound (is_refused c t at p) i = refused-Invariant serve s c t at i
  step-Invariant {s} bound (writes c t at) i = writes-Invariant serve s c t at i
  step-Invariant {s} bound (write_fails c t at) i = write_fails-Invariant serve s c t at i
  step-Invariant {s} bound (serves c t b rep ok at v) i =
      serves-Invariant serve s c t b rep ok at v i
  step-Invariant {s} bound (reads c t r at w) i = reads-Invariant serve s c t r at w i
  step-Invariant {s} bound (takes c t r at l) i = takes-Invariant serve s c t r at l i
  step-Invariant {s} bound (read_fails at) i =
      goes_on-Invariant serve s s.clnt.callmap.closed broken
        (λ c q. absurd (none-ne-some _ (sym (ap holder at) ∙ q))) (λ q. absurd (false≢true q)) tt i
  step-Invariant {s} bound (closes_map at) i =
      goes_on-Invariant serve s true stopping
        (λ c q. absurd (none-ne-some _ (sym (ap holder at) ∙ q))) (λ q. absurd (false≢true q)) refl
        i
  step-Invariant {s} bound (lists at) i =
      goes_on-Invariant serve s s.clnt.callmap.closed (draining (keys s.clnt.callmap.calls))
        (λ c q. absurd (none-ne-some _ (sym (ap holder at) ∙ q))) (λ q. absurd (false≢true q))
        (known_reader serve s stopping at i, (i.distinct, λ t. refl)) i
  step-Invariant {s} bound (drains t ts at) i = drains-Invariant serve s t ts at i
  step-Invariant {s} bound (takes_failure c t ts at l) i =
      takes_failure-Invariant serve s c t ts at l i
  step-Invariant {s} bound (ends at) i =
      goes_on-Invariant serve s s.clnt.callmap.closed finished
        (λ c q. absurd (none-ne-some _ (sym (ap holder at) ∙ q))) (λ q. absurd (false≢true q))
        (known_reader serve s (draining []) at i) i
  step-Invariant {s} bound closes i =
      goes_on-Invariant serve s true s.reader (λ c q. q) (λ q. q)
        (close-ReaderOk serve s.callers s.asked s.clnt.callmap.closed s.clnt.callmap.calls s.reader
          i.reader)
        i

  reply-issued : (t : Ttag) (f : ℕ → Reader) (s : Link) → (reply t f s).issued ≡ s.issued
  unfolding reply remove
  reply-issued t f s = elim (Option-cases (lookup t s.clnt.callmap.calls)) [
    | inl h ↦ rw (h, reply, remove) refl
    | inr (ch, h) ↦ rw (h, reply, remove) refl
  ]

  step-issued : {s s' : Link} → Step serve s s' → s.issued ≤ s'.issued
  step-issued (calls b) = omega arith
  step-issued {s} (reads c t r at w) =
      omega
        (arith, reply-issued t (λ ch. sending ch r) (record s { wires = update s.wires c nothing }))
  step-issued {s} (drains t ts at) = omega (arith, reply-issued t (λ ch. failing ch ts) s)
  step-issued _ = omega arith

  new-Invariant : Invariant serve new_link
  unfolding new_link new_demux_clnt new_call_map holder live CallOk ReaderOk
  new-Invariant = record {
    next = refl;
    unused = λ c h. refl;
    distinct = tt;
    tags = λ t c h. absurd (none-ne-some _ h);
    calls = λ c. (refl, refl);
    reader = tt;
  }

  reach-Invariant : {s : Link} → s.issued < 2 ^ 32 → Reach serve s → Invariant serve s
  reach-Invariant bound begin = new-Invariant
  reach-Invariant {s} bound (next {s = s0} r step) =
      step-Invariant bound step (reach-Invariant (omega (arith, step-issued step)) r)

  -- While fewer than 2 ^ 32 calls have been made on a connection, the reader never finds a reply that no
  -- call waits for, and a call that has returned either has failed or has an answer that the server gives
  -- to the call's own request: replies are never mixed up.
  pub returned-Serves :
      {s : Link} (c : ℕ) (r : Reply)
      → s.issued < 2 ^ 32
      → Reach serve s
      → s.callers c ≡ returned r
      → (s.reader ≢ fatal) × ((r ≡ fail) ⊎ Serves serve (s.asked c) r)
  unfolding ReaderOk CallOk
  returned-Serves {s} c r bound reach at =
      let i = reach-Invariant bound reach in
      (λ f. known_reader serve s fatal f i, (at_stage serve s c (returned r) at i).0)

  not_waiting :
      (c : ℕ) (b : List ℕ) (found h : Option ℕ) (q : Bool) (caller : Caller) (wire : Wire)
      → found ≡ none
      → h ≡ none
      → CallOk serve c b found h q caller wire
      → ¬ Waits caller
  unfolding CallOk Waits
  not_waiting c b found h q (queued t) wire f e (_, _, inl g) w =
      absurd (none-ne-some _ (sym f ∙ g))
  not_waiting c b found h q (queued t) wire f e (_, _, inr (g, _, _)) w =
      absurd (none-ne-some _ (sym e ∙ g))
  not_waiting c b found h q (listening t) wire f e (_, _, inl g) w =
      absurd (none-ne-some _ (sym f ∙ g))
  not_waiting c b found h q (listening t) wire f e (_, _, inr (g, _, _)) w =
      absurd (none-ne-some _ (sym e ∙ g))
  not_waiting c b found h q idle wire f e ok w = w
  not_waiting c b found h q (tagged t) wire f e ok w = w
  not_waiting c b found h q (returned x) wire f e ok w = w

  -- When the reader has finished, while fewer than 2 ^ 32 calls have been made, no call is left waiting
  -- for a reply, and any later call is refused: none hangs on a connection that is gone.
  pub finished-Waits :
      {s : Link} (c d : ℕ) (t : Ttag)
      → s.issued < 2 ^ 32
      → Reach serve s
      → s.reader ≡ finished
      → (¬ Waits (s.callers c)) × (put t d s.clnt.callmap ≡ none)
  unfolding ReaderOk holder put
  finished-Waits {s} c d t bound reach at =
      let i = reach-Invariant bound reach in
      let (k, (_, all)) = known_reader serve s finished at i in
      (
        not_waiting c (s.asked c) (lookup (c + 1) s.clnt.callmap.calls) (holder s.reader)
            (live s.reader) (s.callers c) (s.wires c)
            (elim (Option-cases (lookup (c + 1) s.clnt.callmap.calls)) [
              | inl h ↦ h
              | inr (d, h) ↦
                  absurd
                    (true≢false (sym (lookup-has (c + 1) s.clnt.callmap.calls h) ∙ all (c + 1)))
            ])
            (ap holder at) (i.calls c),
        rw k refl,
      )
