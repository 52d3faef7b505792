-- ===== src/Demux/Link/Invariant.antt =====
-- tester1/demux: what every state of a connection has, while fewer than 2 ^ 32 calls have been made.
use linearizable_kv_store.Prelude.{
  ℕ, ◌+◌, ◌%◌, ◌^◌, ◌≤◌, ◌≡◌, ◌⊎◌, Bool, true, false, Option, none, some, List, [],
}
use linearizable_kv_store.Prelude.Assoc.{mem, Distinct, keys, lookup, has}
use linearizable_kv_store.Demux.{Ttag, Reply}
use linearizable_kv_store.Demux.Link.{
  fail, Caller, idle, tagged, queued, listening, returned, Wire, nothing, request, response, Reader,
  reading, sending, broken, stopping, draining, failing, finished, fatal, Link,
}

-- The call that the reader has a reply for.
unfoldable pub holder : Reader → Option ℕ
holder (sending c r) = some c
holder (failing c ts) = some c
holder _ = none

-- The reader still reads.
unfoldable pub live : Reader → Bool
live reading = true
live (sending c r) = true
live _ = false

-- After put and before the result.
unfoldable pub Waits : Caller → Type 0
Waits (queued t) = Unit
Waits (listening t) = Unit
Waits _ = ⊥

module _ (serve : List ℕ → List ℕ → Bool → Type 0) where
  abbrev pub Serves : List ℕ → Reply → Type 0
  Serves b r = (r.err ≡ false) × serve b r.rep r.ok

  unfoldable pub WireOk : ℕ → List ℕ → Wire → Type 0
  WireOk c b nothing = Unit
  WireOk c b (request t b') = (t ≡ c + 1) × (b' ≡ b)
  WireOk c b (response t r) = (t ≡ c + 1) × Serves b r

  -- A call that waits is in the map, or the reader has a reply for it and no message of it is left to read.
  abbrev pub Registered : ℕ → Option ℕ → Option ℕ → Bool → Wire → Type 0
  Registered c found holder reads wire =
      (found ≡ some c) ⊎ ((holder ≡ some c) × (found ≡ none) × ((reads ≡ true) → wire ≡ nothing))

  -- One call, with what the map has under its tag.
  unfoldable pub CallOk : ℕ → List ℕ → Option ℕ → Option ℕ → Bool → Caller → Wire → Type 0
  CallOk c b found holder reads idle wire = (wire ≡ nothing) × (found ≡ none)
  CallOk c b found holder reads (tagged t) wire = (t ≡ c + 1) × (wire ≡ nothing) × (found ≡ none)
  CallOk c b found holder reads (queued t) wire =
      (t ≡ c + 1) × (wire ≡ nothing) × Registered c found holder reads wire
  CallOk c b found holder reads (listening t) wire =
      (t ≡ c + 1) × WireOk c b wire × Registered c found holder reads wire
  CallOk c b found holder reads (returned r) wire =
      ((r ≡ fail) ⊎ Serves b r) × (found ≡ none) × ((reads ≡ true) → wire ≡ nothing)

  -- The tags that are left to fail are those of the map.
  abbrev pub Left : List Ttag → List (Ttag × ℕ) → Type 0
  Left ts calls = Distinct ts × ((t : ℕ) → has t calls ≡ mem t ts)

  unfoldable pub ReaderOk : (ℕ → Caller) → (ℕ → List ℕ) → Bool → List (Ttag × ℕ) → Reader → Type 0
  ReaderOk callers asked closed calls reading = Unit
  ReaderOk callers asked closed calls (sending c r) =
      Serves (asked c) r × (callers c ≡ listening (c + 1)) × (lookup (c + 1) calls ≡ none)
  ReaderOk callers asked closed calls broken = Unit
  ReaderOk callers asked closed calls stopping = closed ≡ true
  ReaderOk callers asked closed calls (draining ts) = (closed ≡ true) × Left ts calls
  ReaderOk callers asked closed calls (failing c ts) =
      (closed ≡ true) × Left ts calls × Waits (callers c) × (lookup (c + 1) calls ≡ none)
  ReaderOk callers asked closed calls finished = (closed ≡ true) × Left [] calls
  ReaderOk callers asked closed calls fatal = ⊥

  abbrev pub CallsOk : Link → Type 0
  CallsOk s =
      (c : ℕ)
      → CallOk c (s.asked c) (lookup (c + 1) s.clnt.callmap.calls) (holder s.reader) (live s.reader)
          (s.callers c) (s.wires c)

  pub record Invariant (s : Link) : Type 0 where
    pub next : s.clnt.next_tag ≡ (s.issued + 1) % 2 ^ 32
    pub unused : (c : ℕ) → s.issued ≤ c → s.callers c ≡ idle
    pub distinct : Distinct (keys s.clnt.callmap.calls)
    pub tags : (t c : ℕ) → lookup t s.clnt.callmap.calls ≡ some c → t ≡ c + 1
    pub calls : CallsOk s
    pub reader : ReaderOk s.callers s.asked s.clnt.callmap.closed s.clnt.callmap.calls s.reader
