-- ===== src/Examples/Clusters.antt =====
-- A cluster of eight nodes, of which the nodes 3 and 7 send to each other and the others send to 7.
use rac_kun.Message.{serialize, make_stamp, serialize_body, message_size}
use rac_kun.Network.{make_channel_marker}
use rac_kun.Group.{make_group}
use rac_kun.Text.{lt_bytes}
use rac_kun.Cluster.Founding.{found_group-Routes}
use rac_kun.Cluster.Routing.{Routes}
use rac_kun.Network.Handlers.{found_group}
use rac_kun.Cluster.Count.{owed}
use rac_kun.Cluster.Packets.{packet}
use rac_kun.Cluster.Routing.{knows}
use rac_kun.Message.{Message}
use rac_kun.Network.Logs.{find_log, find_stamp}
use rac_kun.Peer.{set_state, init, make_peer, is_known}
use rac_kun.OrdMap.{find}
use rac_kun.Ring.Order.{size, peer_at-lt}
use rac_kun.Text.{codes, bytes_less}
use rac_kun.Cluster.Display.{displays, flood_displays}
use rac_kun.Cluster.Broadcast.{flood_adds_up, flood_ends, flood_reaches}
use rac_kun.Cluster.RoundRing.{RingWired, ring_hears}
use rac_kun.Cluster.Flood.{
  Begins, message, origin-Relays, delivery-Relays, Step-Spread, begun-Spread, hop, origin,
  origin-knows,
}
use rac_kun.Cluster.Spread.{Wired, Spread}
use rac_kun.Cluster.Relays.{own_marker}
use rac_kun.Cluster.{
  Wiring, Cluster, Run, here, next, deliver, broadcasts, Packet, advance, Step, receiver,
}
use rac_kun.Examples.Wires.{hashing}
use rac_kun.Examples.Nodes.{digest, start}
use rac_kun.Examples.Rings.{
  two_peers, two_peers-IsRing, two_peers-entries, many, first, second, succ_first, succ_second,
}
use rac_kun.Examples.{sha, ids, Bytes}
use rac_kun.Network.{Network, make_network}
use rac_kun.Prelude.{
  ℕ, ◌∷◌, [], ◌≡◌, refl, if◌then◌else◌, arith, some, ◌==◌, ◌<◌, Bool-cases, inl, inr, suc, false,
  true, ◌+◌, ◌∙◌, length, zero, none, ◌≤◌,
}

-- A node whose local group has the other node as its successor.
abbrev member : Network
member = record start {
  local_group = some 0;
  group_store = λ g. record (make_group []) { successors = (digest, 1) ∷ [] };
  groups = ([], 0) ∷ [];
  channel_markers = (digest, []) ∷ [];
}

abbrev wiring : Wiring
wiring = record {
  env = λ i. hashing;
  far_node = λ i p. if i == 7 then 3 else 7;
  far_ref = λ i p. 1;
}

abbrev at_rest : Cluster
at_rest = record { node = λ i. member; flight = [] }

abbrev hello : Bytes
hello = codes "hello"

far_node-inside : (i : ℕ) → (if i == 7 then 3 else 7) < 8
far_node-inside i = elim (Bool-cases (i == 7)) [
  | inl e ↦ rw e (omega arith)
  | inr e ↦ rw e (omega arith)
]

member-marked : find (own_marker hashing hello 0 member) member.channel_markers ≡ some []
unfolding find lt_bytes make_channel_marker make_group make_network
member-marked = refl

member-grouped : find [] member.groups ≡ some 0
unfolding find lt_bytes
member-grouped = refl

member-known : ((member.store 1).local ≡ false) × (is_known (member.store 1) ≡ true)
unfolding make_network set_state init make_peer
member-known = (refl, refl)

abbrev net : Wired wiring (own_marker hashing hello 0 member) 8 at_rest
net = record {
  group = λ i. 0;
  routes = λ i h. record {
    id = [];
    group = 0;
    marked = member-marked;
    grouped = member-grouped;
    remote = (member-known.0, tt);
  };
  routed = λ i h. refl;
  inside = λ i p h has. far_node-inside i;
  heard = λ i p h has. member-known;
}

begins : Begins wiring 8 at_rest hello 3 0 net
unfolding make_network make_group make_channel_marker find_log find_stamp make_stamp lt_bytes
begins = record {
  inside = omega arith;
  ours = refl;
  own = refl;
  fresh = λ i h. refl;
  idle = refl;
  fits = record { stamp_length = refl; body_fits = refl };
}

two_peers-size : size two_peers ≡ 2
two_peers-size = rw two_peers-entries refl

-- Each node on the ring sends to the next.
wired : RingWired wiring (λ i. (digest, 1) ∷ []) sha ids two_peers
wired zero i j at onward =
    let here : i ≡ 3 = cc (at, first) in
    let there : j ≡ 7 = cc (onward, succ_first, here) in (1, inl refl, rw (here, there) refl)
wired (suc zero) i j at onward =
    let here : i ≡ 7 = cc (at, second) in
    let there : j ≡ 3 = cc (onward, succ_second, here) in (1, inl refl, rw (here, there) refl)
wired (suc (suc a)) i j at onward =
    absurd (omega (arith, peer_at-lt two_peers (suc (suc a)) i at, two_peers-size))

abbrev hello_message : Message
hello_message = message wiring 8 at_rest hello 3 0 net

abbrev begun : Cluster
begun = broadcasts wiring 3 hello at_rest

begun-Sound : Spread wiring (own_marker hashing hello 0 member) 8 at_rest net hello_message begun
begun-Sound = begun-Spread wiring 8 at_rest hello 3 0 net begins

-- The node 3 sends to the node 7, that sends back.
abbrev there : Packet
there = packet 3 (serialize hello_message) 1

abbrev back : Packet
back = packet 7 (serialize hello_message) 1

begun-flight : begun.flight ≡ there ∷ []
begun-flight =
    (origin-Relays wiring 8 at_rest hello 3 0 net begins).passed_on
    ∙ rw (begins.fresh 3 (omega arith)) refl

abbrev passed : Cluster
passed = advance 7 (receiver wiring 0 there begun) [] begun

first_delivery : Step wiring 0 begun passed
first_delivery = deliver [] [] there begun-flight refl

passed-Sound : Spread wiring (own_marker hashing hello 0 member) 8 at_rest net hello_message passed
passed-Sound =
    Step-Spread wiring 0 _ _ hello 8 at_rest net begins.fits begun passed first_delivery begun-Sound

passed-flight : passed.flight ≡ back ∷ []
passed-flight =
    (delivery-Relays wiring 0 _ _ hello 8 at_rest net begins.fits there begun begun-Sound
      (omega arith, refl, inl refl)).passed_on
    ∙ rw (begins.fresh 7 (omega arith)) refl

abbrev returned : Cluster
returned = advance 3 (receiver wiring 0 back passed) [] passed

second_delivery : Step wiring 0 passed returned
second_delivery = deliver [] [] back passed-flight refl

returned-flight : returned.flight ≡ []
returned-flight =
    (delivery-Relays wiring 0 _ _ hello 8 at_rest net begins.fits back passed passed-Sound
      (omega arith, refl, inl refl)).passed_on
    ∙ rw (origin-knows wiring 8 at_rest hello 3 0 net begins) refl

round : Run wiring 0 begun 2 returned
round = next (next here first_delivery) second_delivery

flood_ends_example : (t : ℕ) × (e : Cluster) × Run wiring 0 passed t e × (e.flight ≡ [])
flood_ends_example =
    flood_ends wiring 0 8 at_rest hello 3 0 net begins 1 passed (next here first_delivery)

flood_adds_up_example :
    2 + (length returned.flight + owed wiring _ 8 at_rest net hello_message returned) ≡ 8
flood_adds_up_example = flood_adds_up wiring 0 8 at_rest hello 3 0 net begins 2 returned round

flood_reaches_example : knows hello_message (returned.node 7) ≡ true
flood_reaches_example =
    flood_reaches wiring 0 8 at_rest hello 3 0 net begins 2 returned 7 round returned-flight
      (hop 1 origin (inl refl))

ring_hears_example : knows hello_message (returned.node 7) ≡ true
ring_hears_example =
    ring_hears wiring 0 8 at_rest hello 3 0 net begins sha ids two_peers two_peers-IsRing wired 0 1
      7 2 returned many first second round returned-flight

hello-fits : length (serialize (message wiring 8 at_rest hello 3 0 net)) ≤ message_size
unfolding serialize make_stamp serialize_body make_channel_marker lt_bytes make_group
hello-fits = omega arith

flood_displays_example : displays wiring 0 7 round ≡ hello ∷ []
flood_displays_example =
    flood_displays wiring 0 8 at_rest hello 3 0 net begins 2 returned 7 round returned-flight
      (hop 1 origin (inl refl)) hello-fits

start-bare : (start.groups ≡ []) × (start.channel_markers ≡ []) × (start.local_group ≡ none)
unfolding make_network
start-bare = (refl, refl, refl)

found_group-Routes_example :
    let n' = (found_group hashing start).1 in
    Routes (own_marker hashing hello start.next_group n') n'
    × (n'.local_group ≡ some start.next_group)
found_group-Routes_example = found_group-Routes hashing hello start start-bare.0 start-bare.1
