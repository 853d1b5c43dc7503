-- ===== src/Network/Faults.antt =====
-- Where the node leaves defined behaviour, or does not come back.
use rac_kun.Peer.{is_known}
use rac_kun.Message.RoundTrip.{IsMessage, parse_message-serialize}
use rac_kun.Message.{Message, bcast_marker, serialize, Body}
use rac_kun.Network.Logs.{log_message, insert_log, new_control, marker_entry, group_entry, find_log}
use rac_kun.Outcome.{system_error}
use rac_kun.Utils.{itos}
use rac_kun.Network.Join.{connect_peer, or_none}
use rac_kun.Network.Handlers.{handle_incoming_message, accept_notif, receive, receive_new, success}
use rac_kun.Text.{bytes_less}
use rac_kun.OrdMap.Laws.{erase_missing, position_missing}
use rac_kun.Prelude.{◌≡◌, ◌∷◌, false, ap, zero, refl, ==_iff, some}
use rac_kun.OrdMap.{find, assign}
use rac_kun.Exec.{◌>>=◌, try_catch, pointee, gets, option_case, modify, pure, raise}
use rac_kun.Network.Disconnect.{search_group, remove_from}
use rac_kun.Group
use rac_kun.Network.{
  Network, Env, Bytes, ◌>>=◌, PeerRef, GroupRef, ℕ, id_of, OrdMap, none, ok, hang, suc, listen,
  throw, true, [], fault, Result, emit_event, listening,
}

-- A group that does not hold the peer does not hold it after the removal either.
remove_absent :
    (sha1 : Bytes → Bytes) (get_id : PeerRef → Bytes) (p : PeerRef) (v : Group.Group)
    → find (get_id p) v.peers ≡ none
    → ((Group.remove_peer sha1 get_id p v).1 ≡ false)
      × ((Group.remove_peer sha1 get_id p v).0.peers ≡ v.peers)
unfolding Group.remove_peer
remove_absent sha1 get_id p v h = (
  rw (h, Group.remove_peer),
  erase_missing (get_id p) v.peers (position_missing (get_id p) v.peers h),
)

module _ (env : Env) where
  remove_from_absent :
      (p : PeerRef) (g : GroupRef) (n : Network)
      → find (id_of n p) (n.group_store g).peers ≡ none
      → ((remove_from env p g n).0 ≡ ok false)
        × (find (id_of (remove_from env p g n).1 p) ((remove_from env p g n).1.group_store g).peers
            ≡ none)
  unfolding remove_from ◌>>=◌
  remove_from_absent p g n h =
      let (answer, kept) = remove_absent env.sha1 (id_of n) p (n.group_store g) h in
      (ap ok answer, rw ((==_iff g g).1 refl, kept) h)

  -- If the first group in the order of the ids does not hold the peer, the search for the peer's
  -- group does not end, whatever the fuel.
  pub search_group_hangs :
      (fuel : ℕ) (p : PeerRef) (id : Bytes) (g : GroupRef) (m : OrdMap Bytes GroupRef) (n : Network)
      → find (id_of n p) (n.group_store g).peers ≡ none
      → (search_group env fuel p ((id, g) ∷ m) n).0 ≡ hang
  unfolding search_group ◌>>=◌
  search_group_hangs zero p id g m n h = refl
  search_group_hangs (suc fuel) p id g m n h =
      let (answer, absent) = remove_from_absent p g n h in
      rw answer (search_group_hangs fuel p id g m (remove_from env p g n).1 absent)

  marker_entry_unknown :
      (marker : Bytes) (n : Network)
      → find marker n.channel_markers ≡ none
      → marker_entry marker n
        ≡ (ok [], record n { channel_markers = assign marker [] n.channel_markers })
  unfolding marker_entry ◌>>=◌ gets option_case modify pure
  marker_entry_unknown marker n h = rw (h, option_case) refl

  group_entry_null :
      (id : Bytes) (n : Network) → find id n.groups ≡ none → group_entry id n ≡ (fault, n)
  unfolding group_entry pointee
  group_entry_null id n h = ap (λ o. elim o [ none ↦ (Result.fault, n) | some a ↦ (ok a, n) ]) h

  new_control_faults :
      (b : Body) (n : Network) {marker : Bytes}
      → bcast_marker b ≡ some marker
      → find marker n.channel_markers ≡ none
      → find [] n.groups ≡ none
      → (new_control b n).0 ≡ fault
  unfolding new_control ◌>>=◌ option_case
  new_control_faults b n {marker = marker} marked unknown no_group =
      rw
        (
          marked,
          marker_entry_unknown marker n unknown,
          group_entry_null [] (record n { channel_markers = assign marker [] n.channel_markers })
              no_group,
        )
        refl

  log_message_faults :
      (m : Message) (p : PeerRef) (n : Network) {marker : Bytes}
      → bcast_marker m.body ≡ some marker
      → find_log m n.logs ≡ none
      → find marker n.channel_markers ≡ none
      → find [] n.groups ≡ none
      → (log_message m p n).0 ≡ fault
  unfolding log_message insert_log ◌>>=◌ option_case
  log_message_faults m p n marked fresh unknown no_group =
      rw (fresh, new_control_faults m.body n marked unknown no_group) refl

  -- A broadcast whose fields have their widths, that comes from a known remote peer and is new to the
  -- log, under a marker that the node does not know, makes the handler dereference a null pointer, if
  -- no group has the empty id.
  pub unknown_marker_faults :
      (fuel : ℕ) (m : Message) (p : PeerRef) (n : Network) {marker : Bytes}
      → IsMessage m
      → bcast_marker m.body ≡ some marker
      → (n.store p).local ≡ false
      → is_known (n.store p) ≡ true
      → find_log m n.logs ≡ none
      → find marker n.channel_markers ≡ none
      → find [] n.groups ≡ none
      → (handle_incoming_message env fuel success (serialize m) p n).0 ≡ fault
  unfolding handle_incoming_message ◌>>=◌ listen receive receive_new try_catch option_case
  unknown_marker_faults fuel m p n v marked remote known fresh unknown no_group =
      rw
        (
          remote,
          parse_message-serialize m v,
          fresh,
          known,
          log_message_faults m p (emit_event (listening p) n) marked fresh unknown no_group,
        )
        refl

  connect_peer_unreachable :
      (ip port : Bytes) (n : Network)
      → env.resolve n.connections ip port ≡ none
      → connect_peer env ip port n
        ≡ (throw system_error, record n { connections = suc n.connections })
  unfolding connect_peer ◌>>=◌ option_case modify gets raise
  connect_peer_unreachable ip port n h = rw (h, or_none, option_case) refl

  -- A JOIN Notification of a peer whose address cannot be resolved raises, and the join token stays
  -- taken.
  pub unreachable_keeps_token :
      (g : GroupRef) (peer_id pub_k ip : Bytes) (port : ℕ) (n : Network)
      → env.resolve n.connections ip (itos port) ≡ none
      → let (result, after) = accept_notif env g peer_id pub_k ip port n in
        (result ≡ throw system_error) × (after.join_token ≡ false)
  unfolding accept_notif ◌>>=◌
  unreachable_keeps_token g peer_id pub_k ip port n h =
      rw (connect_peer_unreachable ip (itos port) (record n { join_token = false }) h) (refl, refl)
