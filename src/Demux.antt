-- ===== src/Demux.antt =====
-- tester1/demux: calls over one connection, matched with their replies by tags. CallMap is callmap.go
-- and DemuxClnt the state of dmxclnt.go; a channel is the number of the call that made it, and an error
-- is `true`. Each operation here runs under one lock.
pub mod Link
mod Tests
use linearizable_kv_store.Prelude.{
  ℕ, ◌+◌, ◌%◌, ◌^◌, Bool, true, false, Option, none, some, List, [], ◌∷◌, if◌then◌else◌,
}
use linearizable_kv_store.Prelude.Assoc.{keys, lookup, erase}

-- type Ttag uint32
abbrev pub Ttag : Type 0
Ttag = ℕ

pub record CallMap : Type 0 where
  pub closed : Bool
  pub calls : List (Ttag × ℕ)

unfoldable pub new_call_map : CallMap
new_call_map = record { closed = false; calls = [] }

unfoldable pub close : CallMap → CallMap
close cm = record cm { closed = true }

unfoldable pub is_closed : CallMap → Bool
is_closed cm = cm.closed

-- `none` is the error "conn closed".
unfoldable pub put : Ttag → ℕ → CallMap → Option CallMap
put tag ch cm =
    if cm.closed then none else some (record cm { calls = (tag, ch) ∷ erase tag cm.calls })

unfoldable pub remove : Ttag → CallMap → Option (ℕ × CallMap)
remove tag cm = elim (lookup tag cm.calls) [
  | none ↦ none
  | some ch ↦ some (ch, record cm { calls = erase tag cm.calls })
]

unfoldable pub outstanding : CallMap → List Ttag
outstanding cm = keys cm.calls

pub record DemuxClnt : Type 0 where
  pub callmap : CallMap
  pub next_tag : Ttag

-- The first tag goes to the message that opens the connection.
unfoldable pub new_demux_clnt : DemuxClnt
unfolding new_call_map
new_demux_clnt = record { callmap = new_call_map; next_tag = 1 }

unfoldable pub tag : DemuxClnt → DemuxClnt × Ttag
tag dmx = (record dmx { next_tag = (dmx.next_tag + 1) % 2 ^ 32 }, dmx.next_tag)

pub record Reply : Type 0 where
  pub rep : List ℕ
  pub ok : Bool
  pub err : Bool
