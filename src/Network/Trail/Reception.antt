-- ===== src/Network/Trail/Reception.antt =====
-- What a peer sends, seen by a relation on the log, the local group and the groups.
use rac_kun.Prelude.{refl}
use rac_kun.Network.Frame.Methods.{Follows-found_group}
use rac_kun.Exec.Follows.{Follows}
use rac_kun.Message.{Message, Body, join_notif, join_ack, payload, ready, ready_notif}
use rac_kun.Network.{Env, ℕ, GroupRef, Bool, Bytes, PeerRef, Network}
use rac_kun.Network.Handlers.{
  eof, other, success, handle_join, handle_join_notif, handle_ready, handle_incoming_message,
  receive, found_group, handle_join_ack, accept_notif, process, receive_new, ready_in_group,
  handle_ready_notif, ReadError,
}
use rac_kun.Network.Trail.{
  IsTrail, trail_rules, Follows-handle_disconnect, Follows-connect_peer,
  Follows-answer_join_request, Follows-check_for_new_peers,
}
use rac_kun.Network.Frame.{IsFrame, Kept-same}
use rac_kun.Exec.Follows.{IsPreorder}

module _ {R : Network → Network → Type 0} ⦃o : IsPreorder R⦄ ⦃k : IsFrame R⦄ ⦃t : IsTrail R⦄
    (env : Env) where
  found : Follows R (found_group env)
  found = Follows-found_group env (λ n. t.of_kept refl (Kept-same refl refl))

  Follows-handle_join :
      (m : Message) (id pub_k : Bytes) (port : ℕ) (p : PeerRef)
      → Follows R (handle_join env m id pub_k port p)
  unfolding handle_join
  Follows-handle_join m id pub_k port p =
      search (trail_rules, t.of_kept, found, Follows-answer_join_request) depth 16

  Follows-accept_notif :
      (g : GroupRef) (peer_id pub_k ip : Bytes) (port : ℕ)
      → Follows R (accept_notif env g peer_id pub_k ip port)
  unfolding accept_notif
  Follows-accept_notif g peer_id pub_k ip port =
      search (trail_rules, t.of_kept, Follows-connect_peer) depth 16

  Follows-handle_join_notif :
      (channel : Bool) (group_id peer_id pub_k ip : Bytes) (port : ℕ)
      → Follows R (handle_join_notif env channel group_id peer_id pub_k ip port)
  unfolding handle_join_notif
  Follows-handle_join_notif channel group_id peer_id pub_k ip port =
      search (trail_rules, Follows-accept_notif) depth 12

  Follows-handle_join_ack :
      (m : Message) (group_id peer_id pub_k : Bytes) (p : PeerRef)
      → Follows R (handle_join_ack env m group_id peer_id pub_k p)
  unfolding handle_join_ack
  Follows-handle_join_ack m group_id peer_id pub_k p = search (trail_rules, t.of_kept) depth 20

  Follows-ready_in_group : (g : GroupRef) → Follows R (ready_in_group env g)
  unfolding ready_in_group
  Follows-ready_in_group g = search (trail_rules, t.of_kept) depth 20

  Follows-handle_ready : Follows R (handle_ready env)
  unfolding handle_ready
  Follows-handle_ready = search (trail_rules, Follows-ready_in_group) depth 8

  pub Follows-process : (m : Message) (b : Body) (p : PeerRef) → Follows R (process env m b p)
  unfolding process handle_ready_notif
  Follows-process m (Body.join id pub_k port) p = Follows-handle_join m id pub_k port p
  Follows-process m (join_notif marker channel group_id peer_id pub_k ip port) p =
      Follows-handle_join_notif channel group_id peer_id pub_k ip port
  Follows-process m (join_ack group_id peer_id pub_k) p =
      Follows-handle_join_ack m group_id peer_id pub_k p
  Follows-process m ready p = Follows-handle_ready
  Follows-process m ready_notif p =
      search (trail_rules, t.of_kept, Follows-check_for_new_peers) depth 8
  Follows-process m (payload marker content) p = search (trail_rules, t.of_kept)

  Follows-receive_new : (m : Message) (p : PeerRef) → Follows R (receive_new env m p)
  unfolding receive_new
  Follows-receive_new m p = search (trail_rules, Follows-process) depth 12

  Follows-receive : (m : Message) (p : PeerRef) → Follows R (receive env m p)
  unfolding receive
  Follows-receive m p = search (trail_rules, Follows-receive_new, t.of_count) depth 12

  pub Follows-handle_incoming_message :
      (fuel : ℕ) (error : ReadError) (received : Bytes) (p : PeerRef)
      → Follows R (handle_incoming_message env fuel error received p)
  unfolding handle_incoming_message
  Follows-handle_incoming_message fuel eof received p = Follows-handle_disconnect env fuel p
  Follows-handle_incoming_message fuel other received p = search (trail_rules)
  Follows-handle_incoming_message fuel success received p =
      search (trail_rules, Follows-receive) depth 12
