-- ===== src/Tester/Tests.antt =====
-- tester1: a group of three servers, and a clerk with two ends.
use Prim.Native.String.{◌++◌ as append}
use linearizable_kv_store.Prelude.{
  ℕ, ◌≡◌, refl, sym, ◌&&◌, ◌||◌, not, true, false, none, some, List, [], ◌∷◌, String, arith,
}
use linearizable_kv_store.Prelude.Assoc.{mem}
use linearizable_kv_store.Labrpc.{
  Network, make_network, make_end as labrpc_make_end, connect as labrpc_connect, read_endname_info,
}
use linearizable_kv_store.Tester.Group.{
  ServerGrp, server_name, make_srv_grp, make_ends, make_servers, make_server, connect_all,
  partition, make_partition, deal, last_is,
}
use mathlib.Core.Bool.{true≢false}
use mathlib.Core.Option.{none-ne-some}
use text.Mathlib.TextEquality.{eq_iff}
use linearizable_kv_store.Prelude.Dict.{insert, empty}
use linearizable_kv_store.Tester.Clnt.{Clnt, make_end, allowed}
use linearizable_kv_store.Tester.Clnt.Allowed.{Wired, Current}
use linearizable_kv_store.Tester.Clnt.Calling.{make_end-Current}
use linearizable_kv_store.Tester.Group.View.{View, Shows}
use linearizable_kv_store.Tester.Group.Split.{split, Disjoint, partition-split}
use linearizable_kv_store.Tester.Group.Made.{GroupMade, make_srv_grp-GroupMade}
use linearizable_kv_store.Tester.Group.Joined.{connect_all-Shows}
use linearizable_kv_store.Tester.Group.Minority.{Minority, make_partition-partition}

abbrev rand : ℕ → ℕ → String
unfolding server_name
rand i j = append (server_name 0 i) (server_name 1 j)

abbrev nobody : View
nobody = record { up = λ i. false; links = λ i j. false }

made : (sg : ServerGrp) × (make_srv_grp rand 0 3 make_network ≡ some sg)
unfolding make_srv_grp make_servers make_server make_ends make_network labrpc_make_end
    labrpc_connect rand
made = (_, refl)

make_srv_grp-GroupMade_example : GroupMade rand 0 3 make_network made.0
make_srv_grp-GroupMade_example = make_srv_grp-GroupMade rand 0 3 make_network made.0 made.1

apart : Disjoint (0 ∷ 2 ∷ []) (1 ∷ [])
apart a = ground arith

abbrev everybody : View
everybody = record { up = λ i. true; links = λ i j. true }

started : (sg : ServerGrp) × (connect_all made.0 ≡ some sg) × Shows 3 rand sg everybody
started =
    connect_all-Shows 3 rand made.0 nobody
      (make_srv_grp-GroupMade rand 0 3 make_network made.0 made.1).shows

partition-split_example :
    (sg : ServerGrp) × (partition (0 ∷ 2 ∷ []) (1 ∷ []) started.0 ≡ some sg)
    × Shows 3 rand sg (split (0 ∷ 2 ∷ []) (1 ∷ []) everybody)
partition-split_example =
    partition-split 3 rand (0 ∷ 2 ∷ []) (1 ∷ []) started.0 everybody
      (omega arith, (omega arith, tt)) (omega arith, tt) apart started.2

make_partition-partition_example :
    (p1 p2 : List ℕ) × (sg : ServerGrp) × (make_partition 3 1 ≡ some (p1, p2))
    × (partition p1 p2 started.0 ≡ some sg)
    × Minority 3 1 p1 p2
    × ((read_endname_info (rand 0 1) sg.net).enabled
        ≡ ((mem 0 p2 && mem 1 p2) || (not (mem 0 p2) && not (mem 1 p2))))
make_partition-partition_example =
    make_partition-partition 1 1 0 1 rand started.0 everybody (omega arith) (omega arith)
      (omega arith) (omega arith) started.2

-- With an even number of servers a slot of the second slice is never filled: server 0 is in both.
even_group : make_partition 4 3 ≡ some (0 ∷ 1 ∷ 2 ∷ [], 0 ∷ 3 ∷ [])
unfolding make_partition deal last_is
even_group = refl

abbrev clerk : Clnt
clerk = record { ends = ("server-0-0", "x") ∷ ("server-0-1", "y") ∷ []; srvs = none }

-- Both ends are on the network, the second one is not enabled.
abbrev wires : Network
unfolding make_network
wires = record make_network {
  ends = insert "x" (record { endname = "x" }) (insert "y" (record { endname = "y" }) empty);
  enabled = insert "x" true (insert "y" true empty);
  connections = insert "x" (some "server-0-0") (insert "y" (some "server-0-1") empty);
}

wired : Wired clerk wires
unfolding wires
wired = record {
  names = ((λ e. absurd (true≢false (sym ((eq_iff "x" "y").1 e))), tt), (tt, tt));
  wires = ((λ h. none-ne-some _ (sym h), refl), ((λ h. none-ne-some _ (sym h), refl), tt));
}

free : wires.ends "z" ≡ none
unfolding wires
free = refl

current : Current clerk wires
unfolding wires Current allowed
current = (refl, (refl, tt))

make_end-Current_example :
    (clnt : Clnt) × (net : Network) × (name : String) × (make_end "z" "server-0-2" clerk wires
      ≡ some (clnt, net, name))
    × ((read_endname_info name net).enabled ≡ allowed none "server-0-2")
    × ((read_endname_info name net).servername ≡ some "server-0-2")
    × Wired clnt net
    × Current clnt net
make_end-Current_example = make_end-Current "z" "server-0-2" clerk wires free wired current
