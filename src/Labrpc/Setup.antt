-- ===== src/Labrpc/Setup.antt =====
-- labrpc/labrpc.go: how the operations on ends and servers decide the way of the requests.
use linearizable_kv_store.Prelude.{
  ℕ, ◌≡◌, ◌≢◌, refl, ap, ◌∙◌, ◌||◌, not, ◌==◌, Bool, true, false, arith, Option, none, some, String,
}
use linearizable_kv_store.Labrpc.Process.Fates.{sending-alive}
use linearizable_kv_store.Prelude.Dict.{insert, insert_self}
use linearizable_kv_store.Labrpc.{
  Network, or_nil, or_false, server_of, differs, EndnameInfo, read_endname_info, is_server_dead,
  add_server, delete_server, connect, enable,
}
use linearizable_kv_store.Labrpc.Process.{
  Route, sending, timing_out, send_to, route_to, after_read, is_dead,
}

-- An end that is given a server, and the server.
unfoldable pub wire : String → String → ℕ → Network → Network
wire endname servername server rn =
    enable endname true (connect endname servername (add_server servername server rn))

abbrev pub the_route : String → ℕ → Network → Route
the_route servername server rn = record {
  servername = servername;
  server = server;
  reliable = rn.reliable;
  long_reordering = rn.long_reordering;
}

send_to-on :
    (name : Option String) (server : Option ℕ) (info : EndnameInfo) (servername : String) (s : ℕ)
    → name ≡ some servername
    → server ≡ some s
    → info.enabled ≡ true
    → send_to name server info ≡ sending (route_to servername s info)
unfolding send_to
send_to-on name server info servername s p q on = rw (p, q, on) refl

send_to-off :
    (name : Option String) (server : Option ℕ) (info : EndnameInfo)
    → info.enabled ≡ false
    → send_to name server info ≡ timing_out
unfolding send_to
send_to-off none server info off = refl
send_to-off (some name) none info off = refl
send_to-off (some name) (some server) info off = rw off refl

send_to-nil :
    (name : Option String) (server : Option ℕ) (info : EndnameInfo)
    → server ≡ none
    → send_to name server info ≡ timing_out
unfolding send_to
send_to-nil none server info p = refl
send_to-nil (some name) server info p = rw p refl

or-true : (b : Bool) → (b || true) ≡ true
or-true true = refl
or-true false = refl

==-false : (a b : ℕ) → a ≢ b → (a == b) ≡ false
==-false a b h = ground arith

pub wire-after_read :
    (endname servername : String) (server : ℕ) (rn : Network)
    → after_read (read_endname_info endname (wire endname servername server rn))
      ≡ sending (the_route servername server rn)
unfolding wire enable connect add_server read_endname_info
wire-after_read endname servername server rn =
    let name : or_nil (insert endname (some servername) rn.connections endname) ≡ some servername =
      ap or_nil (insert_self endname (some servername) rn.connections) in
    send_to-on _ _ (read_endname_info endname (wire endname servername server rn)) servername server
      name
      (ap (server_of (wire endname servername server rn)) name
        ∙ ap or_nil (insert_self servername (some server) rn.servers))
      (ap or_false (insert_self endname true rn.enabled))

-- An end that is disabled sends nothing more, and what it sent is taken for dead.
disabled :
    (endname : String) (route : Route) (rn : Network)
    → (after_read (read_endname_info endname (enable endname false rn)) ≡ timing_out)
      × (is_dead endname route (enable endname false rn) ≡ true)
unfolding enable read_endname_info is_server_dead
disabled endname route rn =
    let off : or_false (insert endname false rn.enabled endname) ≡ false =
      ap or_false (insert_self endname false rn.enabled) in
    (
      send_to-off _ _ (read_endname_info endname (enable endname false rn)) off,
      ap (λ b. not b || differs (or_nil (rn.servers route.servername)) route.server) off,
    )

deleted :
    (endname : String) (route : Route) (rn : Network)
    → or_nil (rn.connections endname) ≡ some route.servername
    → (after_read (read_endname_info endname (delete_server route.servername rn)) ≡ timing_out)
      × (is_dead endname route (delete_server route.servername rn) ≡ true)
unfolding delete_server read_endname_info is_server_dead
deleted endname route rn c =
    let gone : or_nil (insert route.servername none rn.servers route.servername) ≡ none =
      ap or_nil (insert_self route.servername none rn.servers) in
    (
      send_to-nil _ _ (read_endname_info endname (delete_server route.servername rn))
          (ap (server_of (delete_server route.servername rn)) c ∙ gone),
      ap (λ found. not (or_false (rn.enabled endname)) || differs found route.server) gone
          ∙ or-true (not (or_false (rn.enabled endname))),
    )

replaced :
    (endname : String) (route : Route) (new : ℕ) (rn : Network)
    → new ≢ route.server
    → is_dead endname route (add_server route.servername new rn) ≡ true
unfolding add_server is_server_dead
replaced endname route new rn other =
    ap (λ found. not (or_false (rn.enabled endname)) || differs found route.server)
      (ap or_nil (insert_self route.servername (some new) rn.servers))
    ∙ rw (==-false new route.server other) (or-true (not (or_false (rn.enabled endname))))

wire-connections :
    (endname servername : String) (server : ℕ) (rn : Network)
    → or_nil ((wire endname servername server rn).connections endname) ≡ some servername
unfolding wire enable connect add_server
wire-connections endname servername server rn =
    ap or_nil (insert_self endname (some servername) rn.connections)

-- An end that is connected to a server and enabled, with the server added, sends its requests to that
-- server, and a request that has been sent is not taken for dead. Once the end is disabled, or the server is
-- deleted, its requests lead nowhere and those on their way are taken for dead; so are these once
-- another server has been added under the same name.
pub wire-Route :
    (endname servername : String) (server new : ℕ) (rn : Network)
    → new ≢ server
    → let w = wire endname servername server rn in
      let route = the_route servername server rn in
      (after_read (read_endname_info endname w) ≡ sending route)
      × (is_dead endname route w ≡ false)
      × (after_read (read_endname_info endname (enable endname false w)) ≡ timing_out)
      × (is_dead endname route (enable endname false w) ≡ true)
      × (after_read (read_endname_info endname (delete_server servername w)) ≡ timing_out)
      × (is_dead endname route (delete_server servername w) ≡ true)
      × (is_dead endname route (add_server servername new w) ≡ true)
wire-Route endname servername server new rn other =
    let w = wire endname servername server rn in
    let route = the_route servername server rn in
    let way = wire-after_read endname servername server rn in
    let off = disabled endname route w in
    let gone = deleted endname route w (wire-connections endname servername server rn) in
    (
      way,
      sending-alive endname route w way,
      off.0,
      off.1,
      gone.0,
      gone.1,
      replaced endname route new w other,
    )
