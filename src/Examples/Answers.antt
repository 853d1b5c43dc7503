-- ===== src/Examples/Answers.antt =====
-- A node that reads an acknowledgement, and a listener.
use rac_kun.Network.Ready.{ready_connects}
use rac_kun.Peer.{init, make_peer, update, set_state, is_known}
use rac_kun.Cluster.Handshake.{handshake}
use rac_kun.Network.Handlers.{handle_incoming_message, success, is_connected}
use rac_kun.Network.Acknowledged.{reply_message, AtMostTimer}
use rac_kun.Group.{make_group}
use rac_kun.OrdMap.{insert}
use rac_kun.Message.Received.{parse_message-class}
use rac_kun.Outcome.{ok}
use rac_kun.Text.{bytes_less, codes}
use rac_kun.Prelude.{
  ◌≡◌, [], true, none, ◌∷◌, refl, arith, some, length, ◌≤◌, List, ◌++◌, false, ◌⊎◌,
}
use rac_kun.Examples.Nodes.{digest, data_message, data_message-IsMessage}
use rac_kun.Examples.Wires.{reaching}
use rac_kun.Examples.Strangers.{visited, visited_remote, visited_unknown}
use rac_kun.Message.RoundTrip.{IsBody, parse_message-serialize}
use rac_kun.Node.Accept.{
  Listener, visit_all, ended, open_accept, listener_accepts_until_lost, any_lost, Visit,
}
use rac_kun.Network.Logs.{find_log, find_stamp, stamp_of}
use rac_kun.Node.{handle_accept}
use rac_kun.Exec.{◌>>=◌, modify}
use rac_kun.Network.Join.{allocate, add_new_peer, acknowledge_join}
use rac_kun.Network.{make_network, listen, Network, id_of, Event, sent, write_peer}
use rac_kun.Peer.{connected}
use rac_kun.Message.{
  type_code, byte_at, serialize, key_length, group_id_length, id_length, Message, ready,
}

pub visited_alone : visited.local_group ≡ none
unfolding handle_accept ◌>>=◌ allocate add_new_peer modify listen make_network make_peer update init
visited_alone = refl

pub visited_groups : visited.groups ≡ []
unfolding handle_accept ◌>>=◌ allocate add_new_peer modify listen make_network make_peer update init
visited_groups = refl

parse_message-class_example :
    (type_code data_message.body ≡ byte_at (serialize data_message) 0)
    × (data_message.stamp ≡ stamp_of (serialize data_message))
    × IsBody data_message.body
parse_message-class_example =
    parse_message-class (serialize data_message) data_message
      (parse_message-serialize data_message data_message-IsMessage)

abbrev endings : List Visit
endings =
    ended true none
    ∷ ended false (some (record { address = codes "10.0.0.2"; port = 1 }))
    ∷ ended false none
    ∷ []

listener_accepts_until_lost_example :
    ((any_lost endings ≡ false)
      × (l : Listener) × (visit_all endings (open_accept visited) ≡ some l)
      × (l.accepting ≡ 1))
    ⊎ ((any_lost endings ≡ true) × (visit_all endings (open_accept visited) ≡ none))
listener_accepts_until_lost_example = listener_accepts_until_lost endings visited

-- The node has a group.
abbrev pub host : Network
host = record visited { local_group = some 0; group_store = (λ g. make_group digest) }

pub host-id : length (id_of host host.local_peer) ≡ id_length
unfolding handle_accept ◌>>=◌ allocate add_new_peer modify listen make_network make_peer update init
host-id = refl

pub host-key : length (host.store host.local_peer).pub_id_key ≡ key_length
unfolding handle_accept ◌>>=◌ allocate add_new_peer modify listen make_network make_peer update init
host-key = refl

pub host-group : length (host.group_store 0).id ≤ group_id_length
unfolding make_group
host-group = omega arith

pub visited_silent_host : find_log (reply_message reaching 0 host) visited.logs ≡ none
unfolding find_log find_stamp handle_accept ◌>>=◌ allocate add_new_peer modify listen make_network
    make_peer update init
visited_silent_host = refl

handshake_example :
    let acknowledged = acknowledge_join reaching 1 0 host in
    let bytes = serialize (reply_message reaching 0 host) in
    let read = handle_incoming_message reaching 0 success bytes 1 visited in
    let joined = read.1.group_store visited.next_group in
    (timers : List Event) × AtMostTimer 1 timers
    × (acknowledged.0 ≡ ok tt)
    × (acknowledged.1.events ≡ timers ++ sent 1 bytes ∷ host.events)
    × ((acknowledged.1.group_store 0).peers ≡ insert (id_of host 1) 1 (host.group_store 0).peers)
    × (read.0 ≡ ok tt)
    × (read.1.local_group ≡ some visited.next_group)
    × (joined.id ≡ (host.group_store 0).id)
    × (joined.peers ≡ (id_of host host.local_peer, 1) ∷ [])
    × (read.1.store 1
        ≡ set_state connected (
            init
              (id_of host host.local_peer)
              (host.store host.local_peer).pub_id_key
              (visited.store 1)))
handshake_example =
    handshake reaching reaching host visited 1 1 0 0 (λ s. refl) host-id host-key host-group refl
      visited_remote visited_remote visited_unknown visited_silent_host visited_alone visited_groups

-- The node waits in its group, and knows its entry point.
abbrev waiting : Network
waiting = write_peer 1 (set_state connected) (record host { groups = (digest, 0) ∷ [] })

waiting_remote : (waiting.store 1).local ≡ false
unfolding handle_accept ◌>>=◌ allocate add_new_peer modify listen make_network make_peer update init
    set_state
waiting_remote = refl

waiting_known : is_known (waiting.store 1) ≡ true
unfolding update set_state
waiting_known = refl

waiting_silent : find_log (record { stamp = digest; body = ready }) waiting.logs ≡ none
unfolding find_log find_stamp handle_accept ◌>>=◌ allocate add_new_peer modify listen make_network
    make_peer update init
waiting_silent = refl

waiting_waits : is_connected reaching (waiting.store waiting.local_peer) ≡ false
unfolding handle_accept ◌>>=◌ allocate add_new_peer modify listen make_network make_peer update init
    set_state
waiting_waits = refl

ready_connects_example :
    let m : Message = record { stamp = digest; body = ready } in
    (handle_incoming_message reaching 0 success (serialize m) 1 waiting).1.store
    ≡ update waiting.local_peer (set_state connected) waiting.store
ready_connects_example =
    ready_connects reaching 0 digest digest 0 1 waiting refl waiting_remote waiting_known
      waiting_silent refl refl waiting_waits
