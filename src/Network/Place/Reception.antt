-- ===== src/Network/Place/Reception.antt =====
-- Whatever a peer sends, the node stays in its place.
use rac_kun.Network.Place.{
  Owns, Owns-IsPreorder, Owns-IsFrame, Stays, Stays-IsPreorder, Stays-IsFrame, stays_rules,
  stays_same, owns_rules,
}
use rac_kun.Network.Place.Methods.{
  handle_disconnect-Stays, connect_peer-Stays, answer_join_request-Stays, check_for_new_peers-Stays,
}
use rac_kun.Network.Handlers.{
  eof, other, success, handle_join, handle_join_notif, handle_ready, handle_incoming_message,
  receive, found_group, handle_join_ack, accept_notif, process, receive_new, ready_in_group,
  handle_ready_notif, ReadError,
}
use rac_kun.Network.Send.{local_group_id}
use rac_kun.Network.{Env, ℕ, GroupRef, Bool, Bytes, PeerRef, Network, now, create_group}
use rac_kun.Message.{Message, Body, join_notif, join_ack, payload, ready, ready_notif}
use rac_kun.Exec.Follows.{Follows}
use rac_kun.Exec.{◌>>=◌, gets, modify, pointee}
use rac_kun.Prelude.{refl, ◌≡◌, none, some, Option, ◌∙◌}
use mathlib.Core.Path.{sym}

module _ (env : Env) where
  -- The founder of a group has it.
  found_group-Stays : {q : PeerRef} → Follows (Stays q) (found_group env)
  unfolding found_group ◌>>=◌ gets modify now create_group
  found_group-Stays = record {
    at = λ n. record { same_local = refl; in_place = λ other i c z. cc };
  }

  handle_join-Stays :
      (m : Message) (id pub_k : Bytes) (port : ℕ) (p : PeerRef)
      → Follows (Stays p) (handle_join env m id pub_k port p)
  unfolding handle_join
  handle_join-Stays m id pub_k port p =
      search (stays_rules, found_group-Stays, answer_join_request-Stays) depth 16

  accept_notif-Stays :
      {q : PeerRef} (g : GroupRef) (peer_id pub_k ip : Bytes) (port : ℕ)
      → Follows (Stays q) (accept_notif env g peer_id pub_k ip port)
  unfolding accept_notif
  accept_notif-Stays g peer_id pub_k ip port = search (stays_rules, connect_peer-Stays) depth 16

  handle_join_notif-Stays :
      {q : PeerRef} (channel : Bool) (group_id peer_id pub_k ip : Bytes) (port : ℕ)
      → Follows (Stays q) (handle_join_notif env channel group_id peer_id pub_k ip port)
  unfolding handle_join_notif
  handle_join_notif-Stays channel group_id peer_id pub_k ip port =
      search (stays_rules, accept_notif-Stays) depth 12

  handle_join_ack-Stays :
      (m : Message) (group_id peer_id pub_k : Bytes) (p : PeerRef)
      → Follows (Stays p) (handle_join_ack env m group_id peer_id pub_k p)
  unfolding handle_join_ack
  handle_join_ack-Stays m group_id peer_id pub_k p = search stays_rules depth 20

  ready_in_group-Owns : (g : GroupRef) → Follows Owns (ready_in_group env g)
  unfolding ready_in_group
  ready_in_group-Owns g = search owns_rules depth 20

  -- A round of a READY signal connects the local peer only where it has a group.
  ready_in_group-Stays : {q : PeerRef} (g : GroupRef) → Follows (Stays q) (ready_in_group env g)
  unfolding ready_in_group ◌>>=◌ local_group_id pointee
  ready_in_group-Stays {q = q} g = record { at = λ n. by_group n n.local_group refl }
    where
      by_group :
          (n : Network) (o : Option GroupRef)
          → n.local_group ≡ o
          → Stays q n (ready_in_group env g n).1
      by_group n none e = rw e (stays_same refl refl refl)
      by_group n (some r) e =
          let kept = (ready_in_group-Owns g).at n in
          record {
            same_local = kept.same_local;
            in_place =
                λ other i c z. let d : some r ≡ none = sym e ∙ kept.owned.none_before z in cc;
          }

  handle_ready-Stays : {q : PeerRef} → Follows (Stays q) (handle_ready env)
  unfolding handle_ready
  handle_ready-Stays = search (stays_rules, ready_in_group-Stays) depth 8

  process-Stays : (m : Message) (b : Body) (p : PeerRef) → Follows (Stays p) (process env m b p)
  unfolding process handle_ready_notif
  process-Stays m (Body.join id pub_k port) p = handle_join-Stays m id pub_k port p
  process-Stays m (join_notif marker channel group_id peer_id pub_k ip port) p =
      handle_join_notif-Stays channel group_id peer_id pub_k ip port
  process-Stays m (join_ack group_id peer_id pub_k) p =
      handle_join_ack-Stays m group_id peer_id pub_k p
  process-Stays m ready p = handle_ready-Stays
  process-Stays m ready_notif p = search (stays_rules, check_for_new_peers-Stays) depth 8
  process-Stays m (payload marker content) p = search stays_rules

  receive_new-Stays : (m : Message) (p : PeerRef) → Follows (Stays p) (receive_new env m p)
  unfolding receive_new
  receive_new-Stays m p = search (stays_rules, process-Stays) depth 12

  receive-Stays : (m : Message) (p : PeerRef) → Follows (Stays p) (receive env m p)
  unfolding receive
  receive-Stays m p = search (stays_rules, receive_new-Stays) depth 12

  pub handle_incoming_message-Stays :
      (fuel : ℕ) (error : ReadError) (received : Bytes) (p : PeerRef)
      → Follows (Stays p) (handle_incoming_message env fuel error received p)
  unfolding handle_incoming_message
  handle_incoming_message-Stays fuel eof received p = handle_disconnect-Stays env fuel p
  handle_incoming_message-Stays fuel other received p = search stays_rules
  handle_incoming_message-Stays fuel success received p =
      search (stays_rules, receive-Stays) depth 12
