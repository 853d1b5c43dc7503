-- ===== src/Network/Handlers.antt =====
-- `handle_incoming_message` of src/Network.cpp.
use rac_kun.Text.{bytes_less}
use rac_kun.Utils.{itos}
use rac_kun.Group.{add_to_rings, add_group_to_rings}
use rac_kun.Network.Join.{
  connect_peer, check_for_new_peers, update_group, acknowledge_join, file_peer, group_add_peer,
  answer_join_request,
}
use rac_kun.OrdMap.{find, same, erase, assign}
use rac_kun.Network.Send.{local_group_id, stamped, send_each, broadcast}
use rac_kun.Peer.{is_known, set_state, joining, connected, init, get_address}
use rac_kun.Network.Logs.{find_log, log_message, group_entry, modify_log, stamp_of}
use rac_kun.Prelude.{false, ◌∷◌, some, not, none, xor, ◌++◌, ◌||◌}
use rac_kun.Network.Disconnect.{each_group, handle_disconnect}
use rac_kun.Message.{
  Message, bcast_marker, Body, join_notif, ready_notif, join_ack, payload, parse_message, serialize,
  ready,
}
use rac_kun.Exec.{◌>>=◌, ◌>>◌, pure, gets, modify, try_catch, lift, option_case, pointee}
use rac_kun.Network.{
  Network, Env, Method, PeerMap, Peer, Bool, ℕ, PeerRef, GroupRef, write_peer, Bytes, create_group,
  write_group, Option, if◌then◌else◌, listen, insert, [], now, id_of, true, make_hash, emit_event,
  make_channel_marker, shown,
}

-- The error code of a read.
pub data ReadError : Type 0 where
  success eof other : ReadError

-- `new_peers[address].second = port`; an entry that `operator[]` makes has a null pointer.
abbrev pub set_port : ℕ → Option (Option PeerRef × ℕ) → Option PeerRef × ℕ
set_port port none = (none, port)
set_port port (some (p, _)) = (p, port)

-- `directs.insert(succs.begin(), succs.end())`
unfoldable pub union : PeerMap → PeerMap → PeerMap
union m [] = m
union m ((k, p) ∷ rest) = union (insert k p m) rest

module _ (env : Env) where
  -- The first JOIN request makes a lone node the founder of a group.
  unfoldable pub found_group : Method Unit
  found_group = do
    modify (λ n. write_peer n.local_peer (set_state connected) n)
    t ← now env
    id ← gets (λ n. make_hash env.sha1 (id_of n n.local_peer ++ itos t))
    g ← create_group id
    modify (λ n. record n {
      local_group = some g;
      channel_markers = insert (make_channel_marker env id id) id n.channel_markers;
    })
    modify (λ n. write_group g (add_to_rings env.sha1 (id_of n) n.local_peer (n.group_store g)) n)

  abbrev pub is_connected : Peer → Bool
  is_connected p = elim p.state [ connected ↦ true | _ ↦ false ]

  unfoldable pub handle_join : Message → Bytes → Bytes → ℕ → PeerRef → Method Unit
  handle_join m id pub_k port emitter = do
    connected_now ← gets (λ n. is_connected (n.store n.local_peer))
    if connected_now then pure tt else found_group
    modify (write_peer emitter (λ p. set_state joining (init id pub_k p)))
    log_message m emitter
    token ← gets (λ n. n.join_token)
    if token
        then answer_join_request env emitter port
        else modify (λ n.
          let addr = get_address (n.store emitter) in
          record n { new_peers = assign addr (set_port port (find addr n.new_peers)) n.new_peers })

  -- The group's member joins the channels: all rings but the local group's.
  unfoldable pub join_channels : PeerRef → Method Unit
  join_channels p = do
    groups ← gets (λ n. n.groups)
    each_group
        (λ g. do
          local_id ← local_group_id env
          is_local ← gets (λ n. same (n.group_store g).id local_id)
          if is_local then pure tt else do
            modify (λ n. write_group g (add_to_rings env.sha1 (id_of n) p (n.group_store g)) n)
            update_group env g)
        groups

  -- A peer that is to be acknowledged: connect to it first.
  unfoldable pub accept_notif : GroupRef → Bytes → Bytes → Bytes → ℕ → Method Unit
  accept_notif g peer_id pub_k ip port = do
    modify (λ n. record n { join_token = false })
    p ← connect_peer env ip (itos port)
    modify (write_peer p (λ q. set_state joining (init peer_id pub_k q)))
    listen p
    acknowledge_join env p g

  -- A peer of our own group, which we should know already.
  unfoldable pub add_to_channels : Bool → Bytes → Method Unit
  add_to_channels channel peer_id =
      if channel
      then (do known ← gets (λ n. find peer_id n.peers); option_case known (pure tt) join_channels)
      else pure tt

  unfoldable pub handle_join_notif : Bool → Bytes → Bytes → Bytes → Bytes → ℕ → Method Unit
  handle_join_notif channel group_id peer_id pub_k ip port = do
    it ← gets (λ n. find group_id n.groups)
    option_case it (pure tt) λ g. do
      local_id ← local_group_id env
      if xor (same group_id local_id) channel
          then accept_notif g peer_id pub_k ip port
          else add_to_channels channel peer_id

  -- A group that is not known yet: the first one is ours, any other gets our members on its rings.
  unfoldable pub learn_group : Bytes → Method GroupRef
  learn_group group_id = do
    g ← create_group group_id
    ours ← gets (λ n. n.local_group)
    option_case ours (modify (λ n. record n { local_group = some g })) (λ l. modify (λ n.
        write_group g (add_group_to_rings env.sha1 (id_of n) (n.group_store l) (n.group_store g))
          n))
    local_id ← local_group_id env
    modify (λ n. record n {
      channel_markers =
          insert (make_channel_marker env local_id group_id) group_id n.channel_markers;
    })
    pure g

  unfoldable pub handle_join_ack : Message → Bytes → Bytes → Bytes → PeerRef → Method Unit
  handle_join_ack m group_id peer_id pub_k emitter = do
    it ← gets (λ n. find group_id n.groups)
    his_group ← option_case it (learn_group group_id) pure
    modify (write_peer emitter (λ p. set_state connected (init peer_id pub_k p)))
    modify (λ n. record n { new_peers = erase (get_address (n.store emitter)) n.new_peers })
    modify (file_peer emitter)
    group_add_peer env emitter his_group
    log_message m emitter

  -- READY Notifications to the direct neighbours in a group.
  unfoldable pub notify_neighbours : GroupRef → Method Unit
  notify_neighbours g = do
    m ← stamped env (record { stamp = []; body = ready_notif })
    directs ← gets (λ n. union (n.group_store g).predecessors (n.group_store g).successors)
    send_each (serialize m) directs
    local ← gets (λ n. n.local_peer)
    log_message m local

  -- The local peer joins the rings of a group.
  unfoldable pub take_place : GroupRef → Method Unit
  take_place g = do
    modify (λ n. write_group g (add_to_rings env.sha1 (id_of n) n.local_peer (n.group_store g)) n)
    update_group env g

  unfoldable pub own_place : Method Unit
  own_place = do g ← pointee (λ (n : Network). n.local_group); take_place g

  -- One round of the loop of a READY signal.
  unfoldable pub ready_in_group : GroupRef → Method Unit
  ready_in_group g = do
    local_id ← local_group_id env
    foreign ← gets (λ n. not (same (n.group_store g).id local_id))
    waiting ← gets (λ n. not (is_connected (n.store n.local_peer)))
    if foreign
        then take_place g
        else if waiting
        then (do modify (λ n. write_peer n.local_peer (set_state connected) n); own_place)
        else pure tt
    if foreign || waiting then notify_neighbours g else pure tt

  unfoldable pub handle_ready : Method Unit
  handle_ready = do groups ← gets (λ n. n.groups); each_group ready_in_group groups

  unfoldable pub handle_ready_notif : PeerRef → Method Unit
  handle_ready_notif emitter = do
    modify (write_peer emitter (set_state connected))
    check_for_new_peers env

  -- The `switch` on the message's type.
  unfoldable pub process : Message → Body → PeerRef → Method Unit
  process m (Body.join id pub_k port) emitter = handle_join m id pub_k port emitter
  process m (join_notif marker channel group_id peer_id pub_k ip port) emitter =
      handle_join_notif channel group_id peer_id pub_k ip port
  process m (join_ack group_id peer_id pub_k) emitter =
      handle_join_ack m group_id peer_id pub_k emitter
  process m ready emitter = handle_ready
  process m ready_notif emitter = handle_ready_notif emitter
  process m (payload marker content) emitter = modify (emit_event (shown emitter content))

  -- A broadcast is passed on in the rings that its marker names, if it is known.
  unfoldable pub pass_on : Message → Method Unit
  pass_on m = option_case (bcast_marker m.body) (pure tt) λ marker. do
    known ← gets (λ n. find marker n.channel_markers)
    option_case known (pure tt) λ id. do g ← group_entry id; broadcast env g m false

  -- A message that is not in the log yet.
  unfoldable pub receive_new : Message → PeerRef → Method Unit
  receive_new m emitter = do
    known ← gets (λ n. is_known (n.store emitter))
    if known then log_message m emitter else pure tt
    pass_on m
    process m m.body emitter

  unfoldable pub receive : Message → PeerRef → Method Unit
  receive m emitter = do
    it ← gets (λ n. find_log m n.logs)
    option_case it (receive_new m emitter) λ l.
        modify
          (λ n. record n { logs = modify_log (stamp_of (serialize m)) (id_of n emitter) n.logs })

  -- `received` is what `get_last_message` returns. Exceptions of the `try` block are displayed.
  unfoldable pub handle_incoming_message : ℕ → ReadError → Bytes → PeerRef → Method Unit
  handle_incoming_message fuel eof received emitter = handle_disconnect env fuel emitter
  handle_incoming_message fuel other received emitter = pure tt
  handle_incoming_message fuel success received emitter = do
    listen emitter
    try_catch (do m ← lift (parse_message received); receive m emitter)
