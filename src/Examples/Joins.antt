-- ===== src/Examples/Joins.antt =====
-- A node that is let in, from its request to the READY signal.
use rac_kun.Cluster.Handshake.{join_completes}
use rac_kun.Examples.Strangers.{visited, visited_remote, visited_unknown}
use rac_kun.Examples.Answers.{
  host, host-id, host-key, host-group, visited_silent_host, visited_alone, visited_groups,
}
use rac_kun.Network.Acknowledged.{reply_message}
use rac_kun.Examples.Wires.{reaching}
use rac_kun.Prelude.{◌≡◌, none, refl, false, ◌≢◌}
use rac_kun.Peer.{set_state, init, update, make_peer, connected}
use rac_kun.Exec.{◌>>=◌, modify, try_catch}
use rac_kun.Message.{
  parse_message, parse_body, parse_join_ack, string_at, byte_at, serialize, serialize_body,
  make_stamp, ready, Message,
}
use rac_kun.Utils.{make_hash, itos, emit}
use rac_kun.Network.Join.{join_ack_message, group_add_peer, allocate, add_new_peer}
use rac_kun.Network.Handlers.{
  handle_incoming_message, receive, receive_new, pass_on, process, handle_join_ack, learn_group,
  is_connected, success,
}
use rac_kun.Network.{create_group, listen, make_network, Network}
use rac_kun.Network.Send.{local_group_id}
use rac_kun.Network.Logs.{
  log_message, insert_log, new_control, acknowledge, modify_log, ack_message, find_log, find_stamp,
}
use rac_kun.Node.{handle_accept}
use rac_kun.OrdMap.{find, insert, assign, erase}
use rac_kun.Group.{add_to_rings, make_group}
use rac_kun.Text.{lt_bytes, codes, Bytes}
use rac_kun.Group
use rac_kun.Examples.Founders.{one_ne}

abbrev ready_stamp : Bytes
ready_stamp = codes "ABCDEFGHIJKLMNOPQRST"

abbrev let_in : Network
let_in =
    (handle_incoming_message reaching 0 success (serialize (reply_message reaching 0 host)) 1
      visited).1

let_in_silent : find_log (record { stamp = ready_stamp; body = ready }) let_in.logs ≡ none
unfolding handle_incoming_message ◌>>=◌ listen try_catch parse_message parse_body parse_join_ack
    string_at byte_at serialize serialize_body make_stamp make_hash join_ack_message receive
    receive_new pass_on process handle_join_ack learn_group create_group local_group_id
    group_add_peer log_message insert_log new_control acknowledge modify_log ack_message find_log
    find_stamp handle_accept allocate add_new_peer modify make_network make_peer update init
    set_state find insert assign erase Group.add_peer add_to_rings make_group lt_bytes itos emit
let_in_silent = refl

visited_waits : is_connected reaching (visited.store visited.local_peer) ≡ false
unfolding handle_accept ◌>>=◌ allocate add_new_peer modify listen make_network make_peer update init
visited_waits = refl

other_peer : 1 ≢ visited.local_peer
unfolding handle_accept ◌>>=◌ allocate add_new_peer listen update make_network make_peer
other_peer = one_ne

join_completes_example :
    let m : Message = record { stamp = ready_stamp; body = ready } in
    let at_end = (handle_incoming_message reaching 0 success (serialize m) 1 let_in).1 in
    ((at_end.store visited.local_peer).state ≡ connected) × ((at_end.store 1).state ≡ connected)
join_completes_example =
    join_completes reaching reaching host visited 1 0 0 ready_stamp (λ s. refl) host-id host-key
      host-group visited_remote visited_unknown visited_silent_host visited_alone visited_groups
      other_peer visited_waits refl let_in_silent
