-- ===== src/Examples/Founders.antt =====
-- A node that founds a group when the first JOIN request comes in.
use rac_kun.Node.{react, handle_accept}
use rac_kun.Network.Handlers.{
  handle_incoming_message, receive, receive_new, pass_on, process, handle_join, found_group,
}
use rac_kun.Exec.{◌>>=◌, try_catch}
use rac_kun.Network.{listen, create_group, make_channel_marker, on_group, peer_send, now}
use rac_kun.Network.Join.{
  allocate, add_new_peer, answer_join_request, join_notif_message, join_ack_message,
  acknowledge_join, group_add_peer, update_group, start_timer,
}
use rac_kun.Peer.{update, set_state}
use rac_kun.Message.{
  parse_message, parse_body, parse_join, string_at, string_from, byte_at, serialize_body,
  make_stamp,
}
use rac_kun.Utils.{itos, emit, extract_port, read_digits, make_hash}
use rac_kun.Network.Logs.{
  find_log, find_stamp, log_message, insert_log, new_control, acknowledge, modify_log, ack_message,
  marker_entry, group_entry,
}
use rac_kun.OrdMap.{insert, assign, find, erase, position}
use rac_kun.Text.{lt_bytes}
use rac_kun.Group.{add_to_rings, make_group, update_neighbours, collect, settle, make_rings}
use rac_kun.Ring.{make_ring, create_key, get_predecessor, get_successor, find_peer}
use rac_kun.Network.Send.{send, stamped, broadcast, forward, send_each, local_group_id}
use rac_kun.Ring
use rac_kun.Group
use rac_kun.Examples.Nodes.{env, digest}
use rac_kun.Node.{run, accepted, received, Stimulus}
use rac_kun.Node.Place.{connected_has_group, FromOutside}
use rac_kun.Network.{Network, make_network}
use rac_kun.Network.Handlers.{success}
use rac_kun.Message.{Message, join, serialize}
use rac_kun.Peer.{Peer, make_peer, init, connected, new}
use rac_kun.Prelude.{◌≡◌, ◌≢◌, refl, none, ◌∷◌, [], List, true, false, All, ℕ, arith, some}
use rac_kun.Text.{codes}

abbrev pub founder : Peer
founder = init (codes "founder") (codes "AAAAA") (make_peer [] 0 true)

founder-new : founder.state ≡ new
unfolding init make_peer
founder-new = refl

abbrev request : Message
request = record { stamp = digest; body = join digest (codes "BBBBB") 4000 }

abbrev pub inputs : List Stimulus
inputs =
    accepted false (some (record { address = codes "10.0.0.1"; port = 4000 }))
    ∷ received 0 success (serialize request) 1
    ∷ []

abbrev pub founded : Network
founded = run env inputs (make_network founder)

pub one_ne : ◌≢◌ {A = ℕ} 1 0
one_ne h = omega (arith, h)

inputs-FromOutside : All FromOutside inputs
inputs-FromOutside = (tt, (one_ne, tt))

founded-connected : (founded.store founded.local_peer).state ≡ connected
unfolding run react handle_incoming_message ◌>>=◌ listen handle_accept allocate add_new_peer update
    make_network make_peer init set_state try_catch parse_message serialize parse_body parse_join
    string_at string_from byte_at serialize_body itos emit extract_port read_digits receive find_log
    find_stamp receive_new log_message insert_log new_control acknowledge modify_log ack_message
    marker_entry group_entry pass_on process handle_join found_group create_group
    make_channel_marker make_hash insert assign find erase position lt_bytes add_to_rings make_group
    make_ring create_key Ring.add_peer Group.add_peer answer_join_request join_notif_message
    join_ack_message acknowledge_join group_add_peer update_group start_timer on_group
    update_neighbours collect settle get_predecessor get_successor find_peer send stamped broadcast
    forward send_each local_group_id peer_send now make_stamp make_rings
founded-connected = refl

connected_has_group_example : founded.local_group ≢ none
connected_has_group_example =
    connected_has_group env founder inputs founder-new inputs-FromOutside refl founded-connected
