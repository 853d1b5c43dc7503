-- ===== src/Examples/Wires.antt =====
-- Messages that a node sends, with a hash of 20 bytes.
use rac_kun.Network.Join.Request.{request, parse_message-join}
use rac_kun.Text.{codes}
use rac_kun.Network.Join.{try_endpoints, or_none}
use rac_kun.Network.Send.Wire.{sends, stamp_now, broadcast-sends}
use rac_kun.Network.Send.{broadcast}
use rac_kun.Examples.Nodes.{env, digest, data_message, start-remote, start}
use rac_kun.Network.{Env, Network, make_network, sent, write_group, id_of, listening}
use rac_kun.Group.{make_group}
use rac_kun.Network.Join
use rac_kun.Message.{serialize, parse_message, Message, id_length, key_length}
use rac_kun.Outcome.{ok}
use rac_kun.Peer.{init, make_peer}
use rac_kun.Prelude.{◌≡◌, refl, ◌∷◌, [], true, length, some, arith, ◌≢◌}

abbrev pub hashing : Env
hashing = record env { sha1 = λ s. digest }

-- A group with two successors.
abbrev placed : Network
placed =
    write_group 0 (record (make_group []) { successors = (digest, 1) ∷ (digest, 2) ∷ [] }) start

broadcast-sends_example :
    (broadcast hashing 0 data_message true placed).1.events
    ≡ sends (serialize (stamp_now hashing data_message placed)) ((digest, 1) ∷ (digest, 2) ∷ []) []
unfolding make_network
broadcast-sends_example =
    broadcast-sends hashing 0 data_message true placed (start-remote, (start-remote, tt))

-- An entry point that is found, and can be reached.
abbrev pub reaching : Env
reaching = record hashing {
  resolve = λ i ip port. some (record { address = codes "10.0.0.1"; port = 1764 } ∷ []);
  connects = λ i e. true;
}

-- The local peer has an id and a key.
abbrev keyed : Network
keyed = make_network (init digest (codes "AAAAA") (make_peer [] 0 true))

keyed_widths :
    (length (id_of keyed keyed.local_peer) ≡ id_length)
    × (length (keyed.store keyed.local_peer).pub_id_key ≡ key_length)
    × (keyed.local_peer ≢ keyed.next_peer)
unfolding make_network init make_peer
keyed_widths = (refl, refl, (λ h. omega (arith, h)))

reached :
    or_none
      (reaching.connects keyed.connections)
      (reaching.resolve keyed.connections (codes "home") (codes "1764"))
    ≡ some (record { address = codes "10.0.0.1"; port = 1764 })
unfolding try_endpoints
reached = refl

parse_message-join_example :
    (m : Message) × (m.body ≡ (request reaching keyed).body)
    × (parse_message (serialize m) ≡ ok m)
    × ((Join.join reaching (codes "home") (codes "1764") keyed).1.events
        ≡ sent keyed.next_peer (serialize m) ∷ listening keyed.next_peer ∷ keyed.events)
parse_message-join_example =
    parse_message-join reaching (codes "home") (codes "1764")
      (record { address = codes "10.0.0.1"; port = 1764 }) keyed (λ s. refl) keyed_widths.0
      keyed_widths.1 (omega arith) reached keyed_widths.2
