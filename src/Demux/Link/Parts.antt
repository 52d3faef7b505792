-- ===== src/Demux/Link/Parts.antt =====
-- tester1/demux: the lemmas on one call, on the map and on the reader.
use mathlib.Core.Bool.{false≢true}
use mathlib.Core.Option.{some-injective, none-ne-some}
use linearizable_kv_store.Prelude.{
  ℕ, ◌+◌, ◌≡◌, inl, inr, refl, sym, ap, ◌∙◌, subst, Bool, true, false, Option, none, some, List,
  ◌∷◌, ◌==◌, ==_iff, Bool-cases, if◌then◌else◌, arith,
}
use linearizable_kv_store.Prelude.Family.{update}
use linearizable_kv_store.Prelude.Assoc.{lookup, erase, lookup-erase}
use linearizable_kv_store.Demux.{Ttag, CallMap, put, remove, Reply}
use linearizable_kv_store.Demux.Link.{
  Caller, idle, tagged, queued, listening, returned, Wire, nothing, request, response, Reader,
  reading, sending, broken, stopping, draining, failing, finished, fatal, Link, reply, with_map,
}
use linearizable_kv_store.Demux.Link.Invariant.{
  holder, live, WireOk, Serves, CallOk, Waits, ReaderOk,
}

if-some :
    {A : Type 0} (b : Bool) (x : A) {y : A}
    → (if b then none else some x) ≡ some y
    → (b ≡ false) × (y ≡ x)
if-some true x h = absurd (none-ne-some _ h)
if-some false x h = (refl, sym (some-injective _ _ h))

pub put-some :
    (t : Ttag) (c : ℕ) (cm : CallMap) {cm' : CallMap}
    → put t c cm ≡ some cm'
    → (cm.closed ≡ false) × (cm' ≡ record cm { calls = (t, c) ∷ erase t cm.calls })
unfolding put
put-some t c cm h = if-some cm.closed _ h

-- A call with a tag and no channel yet is not one that waits.
pub tagged-ne :
    (callers : ℕ → Caller) (c d : ℕ) (t : Ttag)
    → callers c ≡ tagged t
    → Waits (callers d)
    → (c == d) ≡ false
unfolding Waits
tagged-ne callers c d t at w = elim (Bool-cases (c == d)) [
  | inl p ↦ absurd (subst Waits at (subst (λ k. Waits (callers k)) (sym ((==_iff c d).0 p)) w))
  | inr p ↦ p
]

pub queued-ne : {t u : Ttag} → queued t ≡ listening u → ⊥
queued-ne h = cc

pub request-ne : {t : Ttag} {b : List ℕ} → request t b ≡ nothing → ⊥
request-ne h = cc

pub response-ne : {t : Ttag} {r : Reply} → response t r ≡ nothing → ⊥
response-ne h = cc

listening-Waits : (caller : Caller) (t : Ttag) → caller ≡ listening t → Waits caller
unfolding Waits
listening-Waits caller t h = subst Waits (sym h) tt

abbrev pub erased : Ttag → CallMap → CallMap
erased t cm = record cm { calls = erase t cm.calls }

pub reply-found :
    (t : Ttag) (go_on : ℕ → Reader) (s : Link) (ch : ℕ)
    → lookup t s.clnt.callmap.calls ≡ some ch
    → reply t go_on s ≡ record (with_map s (erased t s.clnt.callmap)) { reader = go_on ch }
unfolding reply remove
reply-found t go_on s ch h = rw (h, reply, remove) refl

pub lookup-put :
    (t j c : ℕ) (calls : List (Ttag × ℕ))
    → lookup j ((t, c) ∷ erase t calls) ≡ (if j == t then some c else lookup j calls)
lookup-put t j c calls = elim (Bool-cases (j == t)) [
  | inl p ↦ rw p refl
  | inr p ↦ rw (p, lookup-erase t j calls, p) refl
]

module _ (serve : List ℕ → List ℕ → Bool → Type 0) where
  -- The reader moves on, and a call is as good as before.
  pub weaken :
      (c : ℕ) (b : List ℕ) (found h h' : Option ℕ) (r r' : Bool) (caller : Caller) (wire : Wire)
      → ((h ≡ some c) → h' ≡ some c)
      → ((r' ≡ true) → r ≡ true)
      → CallOk serve c b found h r caller wire
      → CallOk serve c b found h' r' caller wire
  unfolding CallOk
  weaken c b found h h' r r' idle wire f g ok = ok
  weaken c b found h h' r r' (tagged t) wire f g ok = ok
  weaken c b found h h' r r' (queued t) wire f g (e, w, inl i) = (e, w, inl i)
  weaken c b found h h' r r' (queued t) wire f g (e, w, inr (i, n, m)) =
      (e, w, inr (f i, n, λ q. m (g q)))
  weaken c b found h h' r r' (listening t) wire f g (e, w, inl i) = (e, w, inl i)
  weaken c b found h h' r r' (listening t) wire f g (e, w, inr (i, n, m)) =
      (e, w, inr (f i, n, λ q. m (g q)))
  weaken c b found h h' r r' (returned x) wire f g (v, n, m) = (v, n, λ q. m (g q))

  -- A call that is in the map waits.
  pub found-Waits :
      (c : ℕ) (b : List ℕ) (found h : Option ℕ) (r : Bool) (caller : Caller) (wire : Wire) {d : ℕ}
      → CallOk serve c b found h r caller wire
      → found ≡ some d
      → Waits caller
  unfolding CallOk Waits
  found-Waits c b found h r idle wire ok e = absurd (none-ne-some _ (sym ok.1 ∙ e))
  found-Waits c b found h r (tagged t) wire ok e = absurd (none-ne-some _ (sym ok.2 ∙ e))
  found-Waits c b found h r (queued t) wire ok e = tt
  found-Waits c b found h r (listening t) wire ok e = tt
  found-Waits c b found h r (returned x) wire ok e = absurd (none-ne-some _ (sym ok.1 ∙ e))

  -- What the reader has does not change for a call that it has nothing for.
  pub put-ReaderOk :
      (callers : ℕ → Caller) (asked : ℕ → List ℕ) (calls : List (Ttag × ℕ)) (reader : Reader)
      (t c : ℕ)
      → callers c ≡ tagged t
      → t ≡ c + 1
      → ReaderOk serve callers asked false calls reader
      → ReaderOk serve (update callers c (queued t)) asked false ((t, c) ∷ erase t calls) reader
  unfolding ReaderOk
  put-ReaderOk callers asked calls reading t c at e ok = ok
  put-ReaderOk callers asked calls (sending d r) t c at e (v, l, n) =
      let ne = tagged-ne callers c d t at (listening-Waits (callers d) (d + 1) l) in
      (v, rw ne l, lookup-put t (d + 1) c calls ∙ rw (other ne) n)
    where
      other : (c == d) ≡ false → (d + 1 == t) ≡ false
      other ne = ground (arith, e)
  put-ReaderOk callers asked calls broken t c at e ok = ok
  put-ReaderOk callers asked calls stopping t c at e ok = ok
  put-ReaderOk callers asked calls (draining ts) t c at e ok = absurd (false≢true ok.0)
  put-ReaderOk callers asked calls (failing d ts) t c at e ok = absurd (false≢true ok.0)
  put-ReaderOk callers asked calls finished t c at e ok = absurd (false≢true ok.0)
  put-ReaderOk callers asked calls fatal t c at e ok = ok

  pub same-ReaderOk :
      (callers callers' : ℕ → Caller) (asked asked' : ℕ → List ℕ) (closed : Bool)
      (calls : List (Ttag × ℕ)) (reader : Reader)
      → ((d : ℕ) → Waits (callers d) → (callers' d ≡ callers d) × (asked' d ≡ asked d))
      → ReaderOk serve callers asked closed calls reader
      → ReaderOk serve callers' asked' closed calls reader
  unfolding ReaderOk
  same-ReaderOk callers callers' asked asked' closed calls reading f ok = ok
  same-ReaderOk callers callers' asked asked' closed calls (sending d r) f (v, l, n) =
      let (same, b) = f d (listening-Waits (callers d) (d + 1) l) in (rw b v, same ∙ l, n)
  same-ReaderOk callers callers' asked asked' closed calls broken f ok = ok
  same-ReaderOk callers callers' asked asked' closed calls stopping f ok = ok
  same-ReaderOk callers callers' asked asked' closed calls (draining ts) f ok = ok
  same-ReaderOk callers callers' asked asked' closed calls (failing d ts) f (c, l, w, n) =
      let (same, _) = f d w in (c, l, subst Waits (sym same) w, n)
  same-ReaderOk callers callers' asked asked' closed calls finished f ok = ok
  same-ReaderOk callers callers' asked asked' closed calls fatal f ok = ok

  pub write-ReaderOk :
      (callers : ℕ → Caller) (asked : ℕ → List ℕ) (closed : Bool) (calls : List (Ttag × ℕ))
      (reader : Reader) (t c : ℕ)
      → callers c ≡ queued t
      → ReaderOk serve callers asked closed calls reader
      → ReaderOk serve (update callers c (listening t)) asked closed calls reader
  unfolding ReaderOk
  write-ReaderOk callers asked closed calls reading t c at ok = ok
  write-ReaderOk callers asked closed calls (sending d r) t c at (v, l, n) =
      elim (Bool-cases (c == d)) [
        | inl p ↦ absurd (queued-ne (sym at ∙ ap callers ((==_iff c d).0 p) ∙ l))
        | inr p ↦ (v, rw p l, n)
      ]
  write-ReaderOk callers asked closed calls broken t c at ok = ok
  write-ReaderOk callers asked closed calls stopping t c at ok = ok
  write-ReaderOk callers asked closed calls (draining ts) t c at ok = ok
  write-ReaderOk callers asked closed calls (failing d ts) t c at (k, l, w, n) =
      elim (Bool-cases (c == d)) [
        | inl p ↦ (k, l, subst Waits (rw p refl) (listening-Waits (listening t) t refl), n)
        | inr p ↦ (k, l, subst Waits (rw p refl) w, n)
      ]
  write-ReaderOk callers asked closed calls finished t c at ok = ok
  write-ReaderOk callers asked closed calls fatal t c at ok = ok

  -- The reader that has a reply for a call, and still reads, has one for a call that listens.
  pub holder-listening :
      (callers : ℕ → Caller) (asked : ℕ → List ℕ) (closed : Bool) (calls : List (Ttag × ℕ))
      (reader : Reader) (c : ℕ)
      → ReaderOk serve callers asked closed calls reader
      → holder reader ≡ some c
      → live reader ≡ true
      → callers c ≡ listening (c + 1)
  unfolding ReaderOk holder live
  holder-listening callers asked closed calls (sending d r) c (v, l, n) h r' =
      subst (λ k. callers k ≡ listening (k + 1)) (some-injective _ _ h) l
  holder-listening callers asked closed calls (failing d ts) c ok h r' = absurd (false≢true r')
  holder-listening callers asked closed calls _ c ok h r' = absurd (none-ne-some _ h)

  pub close-ReaderOk :
      (callers : ℕ → Caller) (asked : ℕ → List ℕ) (closed : Bool) (calls : List (Ttag × ℕ))
      (reader : Reader)
      → ReaderOk serve callers asked closed calls reader
      → ReaderOk serve callers asked true calls reader
  unfolding ReaderOk
  close-ReaderOk callers asked closed calls reading ok = ok
  close-ReaderOk callers asked closed calls (sending d r) ok = ok
  close-ReaderOk callers asked closed calls broken ok = ok
  close-ReaderOk callers asked closed calls stopping ok = refl
  close-ReaderOk callers asked closed calls (draining ts) ok = (refl, ok.1)
  close-ReaderOk callers asked closed calls (failing d ts) (k, l, w, n) = (refl, l, w, n)
  close-ReaderOk callers asked closed calls finished ok = (refl, ok.1)
  close-ReaderOk callers asked closed calls fatal ok = ok

  pub serve-CallOk :
      (c : ℕ) (b : List ℕ) (found h : Option ℕ) (r : Bool) (caller : Caller) (t : Ttag)
      (b' rep : List ℕ) (ok : Bool)
      → serve b' rep ok
      → CallOk serve c b found h r caller (request t b')
      → CallOk serve c b found h r caller (response t (record { rep = rep; ok = ok; err = false }))
  unfolding CallOk WireOk
  serve-CallOk c b found h r idle t b' rep ok s (w, n) = absurd (request-ne w)
  serve-CallOk c b found h r (tagged x) t b' rep ok s (e, w, n) = absurd (request-ne w)
  serve-CallOk c b found h r (queued x) t b' rep ok s (e, w, n) = absurd (request-ne w)
  serve-CallOk c b found h r (listening x) t b' rep ok s (e, (et, eb), inl i) =
      (e, (et, (refl, subst (λ y. serve y rep ok) eb s)), inl i)
  serve-CallOk c b found h r (listening x) t b' rep ok s (e, (et, eb), inr (i, n, m)) = (
    e,
    (et, (refl, subst (λ y. serve y rep ok) eb s)),
    inr (i, n, λ q. absurd (request-ne (m q))),
  )
  serve-CallOk c b found h r (returned x) t b' rep ok s (v, n, m) =
      (v, n, λ q. absurd (request-ne (m q)))

  -- While the reader reads, a reply on its way is that of a call that listens and is in the map.
  pub read-CallOk :
      (c : ℕ) (b : List ℕ) (found : Option ℕ) (caller : Caller) (t : Ttag) (x : Reply)
      → CallOk serve c b found none true caller (response t x)
      → (caller ≡ listening (c + 1)) × (t ≡ c + 1) × Serves serve b x × (found ≡ some c)
  unfolding CallOk WireOk
  read-CallOk c b found idle t x (w, n) = absurd (response-ne w)
  read-CallOk c b found (tagged y) t x (e, w, n) = absurd (response-ne w)
  read-CallOk c b found (queued y) t x (e, w, n) = absurd (response-ne w)
  read-CallOk c b found (listening y) t x (e, (et, v), inl i) = (ap listening e, et, v, i)
  read-CallOk c b found (listening y) t x (e, w, inr (i, n, m)) = absurd (none-ne-some _ i)
  read-CallOk c b found (returned y) t x (v, n, m) = absurd (response-ne (m refl))

  -- A call whose tag the reader takes out of the map to fail it.
  pub drain-CallOk :
      (c : ℕ) (b : List ℕ) (found : Option ℕ) (caller : Caller) (wire : Wire)
      → found ≡ some c
      → CallOk serve c b found none false caller wire
      → CallOk serve c b none (some c) false caller wire
  unfolding CallOk
  drain-CallOk c b found idle wire i (w, n) = (w, refl)
  drain-CallOk c b found (tagged y) wire i (e, w, n) = (e, w, refl)
  drain-CallOk c b found (queued y) wire i (e, w, reg) =
      (e, w, inr (refl, refl, λ q. absurd (false≢true q)))
  drain-CallOk c b found (listening y) wire i (e, w, reg) =
      (e, w, inr (refl, refl, λ q. absurd (false≢true q)))
  drain-CallOk c b found (returned y) wire i (v, n, m) = (v, refl, λ q. absurd (false≢true q))
