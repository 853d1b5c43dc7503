-- ===== src/Network/Joined.antt =====
-- A node that asked to join reads the acknowledgement.
use rac_kun.OrdMap.Laws.{find-insert, find-assign, same_refl, IsSorted}
use rac_kun.OrdMap.{insert, find, erase, assign}
use rac_kun.Text.{bytes_less}
use rac_kun.Prelude.{
  ◌≡◌, false, some, ==_iff, refl, if◌then◌else◌, ◌==◌, ◌++◌, ◌∷◌, ap, ◌∙◌, ◌≢◌, subst, sym, arith,
}
use rac_kun.Message.RoundTrip.{IsMessage, parse_message-serialize}
use rac_kun.Message.{Message, join_ack, serialize}
use rac_kun.Group
use rac_kun.Group.{make_group, add_to_rings}
use rac_kun.Network.{
  listen, create_group, Env, ℕ, Bytes, PeerRef, Network, Result, none, ok, write_peer, write_group,
  id_of, suc, make_channel_marker, List, MessageLog, emit_event, listening, [], Peer, PeerMap,
  Store, GroupRef,
}
use rac_kun.Network.Join.{group_add_peer, file_peer}
use rac_kun.Network.Send.{local_group_id}
use rac_kun.Network.Logs.{
  log_message, insert_log, new_control, acknowledge, find_log, modify_log, stamp_of,
}
use rac_kun.Network.Handlers.{
  handle_incoming_message, receive, receive_new, pass_on, process, handle_join_ack, learn_group,
  success,
}
use rac_kun.Exec.{◌>>=◌, try_catch, gets, option_case, modify, pure, lift, pointee}
use rac_kun.Peer.{set_state, update, init, is_known, connected, get_address}

pub no_group : (id : Bytes) → find {V = GroupRef} id [] ≡ none
unfolding find
no_group id = refl

pub update_self : (p : PeerRef) (f : Peer → Peer) (s : Store) → update p f s p ≡ f (s p)
unfolding update
update_self p f s = rw ((==_iff p p).1 refl) refl

module _ (env : Env) (fuel : ℕ) (stamp group_id peer_id pub_k : Bytes) (p : PeerRef) where
  abbrev pub ack : Message
  ack = record { stamp = stamp; body = join_ack group_id peer_id pub_k }

  -- The node with its first group, and then with the peer in it.
  abbrev taught : Network → Network
  taught n = record n {
    group_store = (λ h. if n.next_group == h then make_group group_id else n.group_store h);
    next_group = suc n.next_group;
    groups = insert group_id n.next_group n.groups;
    local_group = some n.next_group;
    channel_markers = insert (make_channel_marker env group_id group_id) group_id n.channel_markers;
  }

  abbrev named : Network → Network
  named n =
      let met = write_peer p (λ q. set_state connected (init peer_id pub_k q)) n in
      file_peer p (record met { new_peers = erase (get_address (met.store p)) met.new_peers })

  abbrev accepted_by : Network → Network
  accepted_by n =
      let n' = named (taught n) in
      write_group n.next_group (Group.add_peer env.sha1 (id_of n') p (n'.group_store n.next_group))
        n'

  abbrev pub acked : Network → Result (Unit {0}) × Network
  acked n = handle_incoming_message env fuel success (serialize ack) p n

  learn_group-taught :
      (n : Network)
      → n.local_group ≡ none
      → learn_group env group_id n ≡ (ok n.next_group, taught n)
  unfolding learn_group create_group local_group_id ◌>>=◌ gets modify pure option_case pointee
      make_group
  learn_group-taught n alone = rw (alone, (==_iff n.next_group n.next_group).1 refl) refl

  handle_join_ack-accepted :
      (m : Message) (n : Network)
      → n.local_group ≡ none
      → find group_id n.groups ≡ none
      → handle_join_ack env m group_id peer_id pub_k p n ≡ log_message m p (accepted_by n)
  unfolding handle_join_ack ◌>>=◌ gets option_case modify group_add_peer
  handle_join_ack-accepted m n alone fresh = rw (fresh, learn_group-taught n alone) refl

  log_message-new :
      (n : Network)
      → find_log ack n.logs ≡ none
      → (n.store p).local ≡ false
      → (logs : List MessageLog) × (log_message ack p n ≡ (ok tt, record n { logs = logs }))
  unfolding log_message insert_log new_control acknowledge ◌>>=◌ gets option_case modify pure
  log_message-new n absent remote = (
    modify_log (stamp_of (serialize ack)) (id_of n p)
        (n.logs ++ record { message = serialize ack; control = [] } ∷ []),
    rw (absent, remote) refl,
  )

  accepted_remote :
      (n : Network) → (n.store p).local ≡ false → ((accepted_by n).store p).local ≡ false
  unfolding update init set_state
  accepted_remote n remote = rw ((==_iff p p).1 refl) remote

  member_id : (n : Network) → id_of (named (taught n)) p ≡ peer_id
  unfolding init set_state
  member_id n =
      ap (λ (x : Peer). x.id)
        (update_self p (λ q. set_state connected (init peer_id pub_k q)) n.store)

  -- The whole handler.
  acked_lem :
      (n : Network)
      → IsMessage ack
      → (n.store p).local ≡ false
      → is_known (n.store p) ≡ false
      → find_log ack n.logs ≡ none
      → n.local_group ≡ none
      → find group_id n.groups ≡ none
      → (logs : List MessageLog) × (acked n
          ≡ (ok tt, record (accepted_by (emit_event (listening p) n)) { logs = logs }))
  unfolding handle_incoming_message ◌>>=◌ listen receive receive_new pass_on process gets
      option_case pure try_catch lift
  acked_lem n v remote unknown absent alone fresh =
      let n0 = emit_event (listening p) n in
      let (logs, logged) = log_message-new (accepted_by n0) absent (accepted_remote n0 remote) in
      (
        logs,
        rw
            (
              remote,
              parse_message-serialize ack v,
              absent,
              unknown,
              handle_join_ack-accepted ack n0 alone fresh,
              logged,
            )
            refl,
      )

  -- A node without a group reads a JOIN Acknowledgement of the entry point, which is a remote peer that is
  -- not known yet; the message has the widths of its class, its stamp is not in the log, and its group is
  -- not among the groups, which are in the order of their ids. Then the handler returns, and the node has
  -- one local group: it is found under the id that the message names, and has the entry point as its one
  -- member; the entry point is connected, has the id and the key that the message gives, and is filed
  -- under that id.
  pub join_ack_joins :
      (n : Network)
      → IsMessage ack
      → (n.store p).local ≡ false
      → is_known (n.store p) ≡ false
      → find_log ack n.logs ≡ none
      → n.local_group ≡ none
      → find group_id n.groups ≡ none
      → IsSorted n.groups
      → let n' = (acked n).1 in
        ((acked n).0 ≡ ok tt)
        × (n'.local_group ≡ some n.next_group)
        × (find group_id n'.groups ≡ some n.next_group)
        × ((n'.group_store n.next_group).id ≡ group_id)
        × ((n'.group_store n.next_group).peers ≡ (peer_id, p) ∷ [])
        × (find peer_id n'.peers ≡ some p)
        × (n'.store p ≡ set_state connected (init peer_id pub_k (n.store p)))
  unfolding make_group Group.add_peer add_to_rings insert
  join_ack_joins n v remote unknown absent alone fresh sorted =
      let n0 = emit_event (listening p) n in
      let (logs, ends) = acked_lem n v remote unknown absent alone fresh in
      let own = (==_iff n.next_group n.next_group).1 refl in
      (
        ap (λ o. o.0) ends,
        ap (λ o. o.1.local_group) ends,
        ap (λ o. find group_id o.1.groups) ends
            ∙ find-insert group_id group_id n.next_group n.groups sorted
            ∙ rw (fresh, same_refl) refl,
        ap (λ o. (o.1.group_store n.next_group).id) ends ∙ rw own refl,
        ap (λ o. (o.1.group_store n.next_group).peers) ends
            ∙ rw own (ap (λ i. (i, p) ∷ []) (member_id n0)),
        ap (λ o. find peer_id o.1.peers) ends
            ∙ ap (λ i. find peer_id (assign i p n.peers)) (member_id n0)
            ∙ first n.peers,
        ap (λ o. o.1.store p) ends
            ∙ update_self p (λ q. set_state connected (init peer_id pub_k q)) n.store,
      )
    where
      first : (m : PeerMap) → find peer_id (assign peer_id p m) ≡ some p
      first m = rw (find-assign peer_id peer_id p m, same_refl) refl

  -- What the next message meets.
  pub join_ack_leaves :
      (n : Network)
      → IsMessage ack
      → (n.store p).local ≡ false
      → is_known (n.store p) ≡ false
      → find_log ack n.logs ≡ none
      → n.local_group ≡ none
      → n.groups ≡ []
      → p ≢ n.local_peer
      → let n' = (acked n).1 in
        (n'.groups ≡ (group_id, n.next_group) ∷ [])
        × (n'.local_peer ≡ n.local_peer)
        × (n'.store n.local_peer ≡ n.store n.local_peer)
  unfolding insert update
  join_ack_leaves n v remote unknown absent alone bare other =
      let (logs, ends) =
        acked_lem n v remote unknown absent alone
          (subst (λ m. find group_id m ≡ none) (sym bare) (no_group group_id)) in
      (
        ap (λ o. o.1.groups) ends ∙ ap (insert group_id n.next_group) bare,
        ap (λ o. o.1.local_peer) ends,
        ap (λ o. o.1.store n.local_peer) ends ∙ ground (arith, other),
      )
