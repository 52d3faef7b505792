-- ===== src/Demux/Link.antt =====
-- tester1/demux: the callers, the reader and the server of one connection as steps that interleave. A
-- write may fail, the connection may break at any time, and what the server answers to a request is
-- any answer that `serve` allows; requests and replies on their way are not ordered.
pub mod Invariant
pub mod Parts
pub mod Calling
pub mod Moving
pub mod Reading
pub mod Matched
use linearizable_kv_store.Prelude.{
  ℕ, ◌+◌, ◌≡◌, Bool, true, false, Option, none, some, List, [], ◌∷◌, ◌==◌, if◌then◌else◌,
}
use linearizable_kv_store.Prelude.Family.{update}
use linearizable_kv_store.Demux.{
  Ttag, CallMap, close, put, remove, outstanding, DemuxClnt, new_demux_clnt, tag, Reply,
}

abbrev pub fail : Reply
fail = record { rep = []; ok = false; err = true }

-- Where a call of SendReceive stands: before it, with a tag, with its channel in the map, after its
-- write, and with its result.
pub data Caller : Type 0 where
  idle : Caller
  tagged : Ttag → Caller
  queued : Ttag → Caller
  listening : Ttag → Caller
  returned : Reply → Caller

-- The message of a call on the connection: the request, and the server's reply to its tag.
pub data Wire : Type 0 where
  nothing : Wire
  request : Ttag → List ℕ → Wire
  response : Ttag → Reply → Wire

-- The reader. It sends to a channel until the caller takes the reply, and then goes on reading, or with
-- the tags that it still has to fail.
pub data Reader : Type 0 where
  reading : Reader
  sending : ℕ → Reply → Reader
  broken : Reader
  stopping : Reader
  draining : List Ttag → Reader
  failing : ℕ → List Ttag → Reader
  finished : Reader
  fatal : Reader

-- A call is known by its number. `asked` are the requests that they were made with.
pub record Link : Type 0 where
  pub clnt : DemuxClnt
  pub issued : ℕ
  pub asked : ℕ → List ℕ
  pub callers : ℕ → Caller
  pub wires : ℕ → Wire
  pub reader : Reader

abbrev pub with_map : Link → CallMap → Link
with_map s cm = record s { clnt = record s.clnt { callmap = cm } }

-- DemuxClnt.reply, on the way to the channel: it is fatal that there is none.
unfoldable pub reply : Ttag → (ℕ → Reader) → Link → Link
reply t go_on s = elim (remove t s.clnt.callmap) [
  | none ↦ record s { reader = fatal }
  | some (ch, cm) ↦ record (with_map s cm) { reader = go_on ch }
]

unfoldable pub new_link : Link
unfolding new_demux_clnt
new_link = record {
  clnt = new_demux_clnt;
  issued = 0;
  asked = λ c. [];
  callers = λ c. idle;
  wires = λ c. nothing;
  reader = reading;
}

module _ (serve : List ℕ → List ℕ → Bool → Type 0) where
  pub data Step (s : Link) : Link → Type 0 where
    calls :
        (b : List ℕ)
        → Step s (record s {
          clnt = (tag s.clnt).0;
          issued = s.issued + 1;
          asked = update s.asked s.issued b;
          callers = update s.callers s.issued (tagged (tag s.clnt).1);
        })
    puts :
        (c : ℕ) (t : Ttag) {cm : CallMap}
        → s.callers c ≡ tagged t
        → put t c s.clnt.callmap ≡ some cm
        → Step s (record (with_map s cm) { callers = update s.callers c (queued t) })
    is_refused :
        (c : ℕ) (t : Ttag)
        → s.callers c ≡ tagged t
        → put t c s.clnt.callmap ≡ none
        → Step s (record s { callers = update s.callers c (returned fail) })
    writes :
        (c : ℕ) (t : Ttag)
        → s.callers c ≡ queued t
        → Step s (record s {
          callers = update s.callers c (listening t);
          wires = update s.wires c (request t (s.asked c));
        })
    write_fails :
        (c : ℕ) (t : Ttag)
        → s.callers c ≡ queued t
        → Step s (record s { callers = update s.callers c (listening t) })
    serves :
        (c : ℕ) (t : Ttag) (b rep : List ℕ) (ok : Bool)
        → s.wires c ≡ request t b
        → serve b rep ok
        → Step s (record s {
          wires = update s.wires c (response t (record { rep = rep; ok = ok; err = false }));
        })
    reads :
        (c : ℕ) (t : Ttag) (r : Reply)
        → s.reader ≡ reading
        → s.wires c ≡ response t r
        → Step s (reply t (λ ch. sending ch r) (record s { wires = update s.wires c nothing }))
    takes :
        (c : ℕ) (t : Ttag) (r : Reply)
        → s.reader ≡ sending c r
        → s.callers c ≡ listening t
        → Step s (record s { reader = reading; callers = update s.callers c (returned r) })
    read_fails : s.reader ≡ reading → Step s (record s { reader = broken })
    closes_map :
        s.reader ≡ broken
        → Step s (record (with_map s (close s.clnt.callmap)) { reader = stopping })
    lists :
        s.reader ≡ stopping → Step s (record s { reader = draining (outstanding s.clnt.callmap) })
    drains :
        (t : Ttag) (ts : List Ttag)
        → s.reader ≡ draining (t ∷ ts)
        → Step s (reply t (λ ch. failing ch ts) s)
    takes_failure :
        (c : ℕ) (t : Ttag) (ts : List Ttag)
        → s.reader ≡ failing c ts
        → s.callers c ≡ listening t
        → Step s (record s { reader = draining ts; callers = update s.callers c (returned fail) })
    ends : s.reader ≡ draining [] → Step s (record s { reader = finished })
    -- DemuxClnt.Close
    closes : Step s (with_map s (close s.clnt.callmap))

  pub data Reach : Link → Type 0 where
    begin : Reach new_link
    next : {s t : Link} → Reach s → Step s t → Reach t
