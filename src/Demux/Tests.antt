-- ===== src/Demux/Tests.antt =====
-- tester1/demux: runs of a connection with two calls.
use linearizable_kv_store.Prelude.{
  ℕ, ◌≡◌, ◌≢◌, ◌⊎◌, refl, Bool, true, false, none, List, [], ◌∷◌, ◌++◌, arith,
}
use linearizable_kv_store.Demux.{
  close, put, remove, outstanding, new_demux_clnt, new_call_map, tag, Reply,
}
use linearizable_kv_store.Demux.Link.{
  fail, returned, finished, fatal, Link, reply, new_link, calls, puts, writes, serves, reads, takes,
  read_fails, closes_map, lists, drains, takes_failure, ends, Reach, begin, next,
}
use linearizable_kv_store.Demux.Link.Invariant.{Waits, Serves}
use linearizable_kv_store.Demux.Link.Matched.{returned-Serves, finished-Waits}

-- A server that sends a request back, twice.
abbrev Twice : List ℕ → List ℕ → Bool → Type 0
Twice b rep ok = (rep ≡ b ++ b) × (ok ≡ true)

abbrev answer : List ℕ → Reply
answer b = record { rep = b; ok = true; err = false }

abbrev three : List ℕ
three = 3 ∷ []

abbrev seven : List ℕ
seven = 7 ∷ []

abbrev twice : List ℕ → List ℕ
twice b = b ++ b

-- Two calls are written, and the server replies to the second one first.
abbrev Replied : Type 0
Replied =
    (s : Link) × Reach Twice s × (s.callers 1 ≡ returned (answer (twice seven))) × (s.issued ≡ 2)

replied : Replied
unfolding tag put remove reply new_link new_demux_clnt new_call_map
replied =
    let made = next (next begin (calls three)) (calls seven) in
    let queues = next (next made (puts 0 1 refl refl)) (puts 1 2 refl refl) in
    let sent = next (next queues (writes 1 2 refl)) (writes 0 1 refl) in
    let served = next sent (serves 1 2 seven (twice seven) true refl (refl, refl)) in
    let read = next served (reads 1 2 (answer (twice seven)) refl refl) in
    (_, next read (takes 1 2 (answer (twice seven)) refl refl), refl, refl)

returned-Serves_example :
    (replied.0.reader ≢ fatal)
    × ((answer (twice seven) ≡ fail) ⊎ Serves Twice (replied.0.asked 1) (answer (twice seven)))
returned-Serves_example =
    returned-Serves Twice 1 (answer (twice seven)) (omega (arith, replied.3)) replied.1 replied.2

-- The connection breaks before the server replies.
abbrev Ended : Type 0
Ended = (s : Link) × Reach Twice s × (s.reader ≡ finished) × (s.issued ≡ 1)

ended : Ended
unfolding tag put remove reply new_link new_demux_clnt new_call_map close outstanding
ended =
    let queues = next (next begin (calls three)) (puts 0 1 refl refl) in
    let sent = next (next queues (writes 0 1 refl)) (read_fails refl) in
    let listed = next (next sent (closes_map refl)) (lists refl) in
    let failed = next (next listed (drains 1 [] refl)) (takes_failure 0 1 [] refl refl) in
    (_, next failed (ends refl), refl, refl)

finished-Waits_example : (¬ Waits (ended.0.callers 0)) × (put 2 1 ended.0.clnt.callmap ≡ none)
finished-Waits_example = finished-Waits Twice 0 1 2 (omega (arith, ended.3)) ended.1 ended.2
