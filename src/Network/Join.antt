-- ===== src/Network/Join.antt =====
-- The JOIN procedure of src/Network.cpp: `connect_peer`, `add_new_peer`, `join`, `acknowledge_join`,
-- `answer_join_request`, `check_for_new_peers` and `complete_join`.
pub mod Request
use rac_kun.Text.{bytes_less}
use rac_kun.Outcome.{system_error}
use rac_kun.Group.{update_neighbours}
use rac_kun.Peer.{set_state, get_address, joining, make_peer, connected, is_known}
use rac_kun.OrdMap.{assign, position, erase, same}
use rac_kun.Network.Send.{local_group_id, broadcast, send}
use rac_kun.Message.{Message, join_notif, join_ack, Body}
use rac_kun.Prelude.{◌*◌, false, not, some, ◌∷◌, ◌==◌, length, ◌||◌}
use rac_kun.Exec.{◌>>=◌, ◌>>◌, pure, raise, gets, modify, try_catch, pointee, results, option_case}
use rac_kun.Group
use rac_kun.Network.{
  Network, Env, Method, PeerRef, Timer, Bytes, ℕ, Bool, Store, GroupRef, Endpoint, write_group, ok,
  OrdMap, List, write_peer, on_group, suc, if◌then◌else◌, Option, Group, [], Result, update, id_of,
  emit_event, none, ◌∷◌, join_timer, listen, true, started, ready_timer, fault, make_channel_marker,
}

-- Seconds (src/Config.cpp).
abbrev pub ready_time : ℕ
ready_time = 3

abbrev pub join_complete_time : ℕ
join_complete_time = 2 * ready_time

-- The endpoint that the `while` loop of `connect_peer` ends at.
unfoldable pub try_endpoints : (Endpoint → Bool) → List Endpoint → Option Endpoint
try_endpoints reached [] = none
try_endpoints reached (e ∷ es) = if reached e then some e else try_endpoints reached es

abbrev pub or_none : (Endpoint → Bool) → Option (List Endpoint) → Option Endpoint
or_none reached none = none
or_none reached (some es) = try_endpoints reached es

-- A new object `Peer(socket)`.
unfoldable pub allocate : Endpoint → Method PeerRef
allocate e n = (
  ok n.next_peer,
  record n {
    store = update n.next_peer (λ _. make_peer e.address e.port false) n.store;
    next_peer = suc n.next_peer;
  },
)

-- `add_new_peer`
unfoldable pub add_new_peer : PeerRef → Method Unit
add_new_peer p = do
  modify (λ n. record n { new_peers = assign (get_address (n.store p)) (some p, 0) n.new_peers })
  listen p

-- `peers[peer->get_id()] = peer`
abbrev pub file_peer : PeerRef → Network → Network
file_peer p n = record n { peers = assign (id_of n p) p n.peers }

-- A timer object in one of the two maps, and its `async_wait`.
unfoldable pub start_timer : Timer → PeerRef → Method Unit
start_timer ready_timer p n = (
  ok tt,
  emit_event (started ready_timer p ready_time) (record n {
    ready_timers = assign (id_of n p) n.next_timer n.ready_timers;
    next_timer = suc n.next_timer;
  }),
)
start_timer join_timer p n = (
  ok tt,
  emit_event (started join_timer p join_complete_time) (record n {
    join_timers = assign (id_of n p) n.next_timer n.join_timers;
    next_timer = suc n.next_timer;
  }),
)

module _ (env : Env) where
  unfoldable pub connect_peer : Bytes → Bytes → Method PeerRef
  connect_peer ip port = do
    count ← gets (λ n. n.connections)
    modify (λ n. record n { connections = suc n.connections })
    option_case (or_none (env.connects count) (env.resolve count ip port)) (raise system_error)
        allocate

  unfoldable pub join : Bytes → Bytes → Method Unit
  join entry_ip entry_port = try_catch (do
    entry ← connect_peer entry_ip entry_port
    modify (λ n. write_peer n.local_peer (set_state joining) n)
    add_new_peer entry
    request ← gets (λ n. record {
      stamp = [];
      body = Body.join (id_of n n.local_peer) (n.store n.local_peer).pub_id_key env.listen_port;
    })
    send env request entry)

  -- `group->update_neighbours(local_peer)`
  unfoldable pub update_group : GroupRef → Method Unit
  update_group g = on_group g (λ n. update_neighbours env.sha1 (id_of n) n.local_peer)

  unfoldable pub group_add_peer : PeerRef → GroupRef → Method Unit
  group_add_peer p g =
      modify (λ n. write_group g (Group.add_peer env.sha1 (id_of n) p (n.group_store g)) n)

  -- Whether the peer is among a group's neighbours.
  abbrev pub is_neighbour : Bytes → Group → Bool
  is_neighbour id g =
      not (position id g.predecessors == length g.predecessors)
      || not (position id g.successors == length g.successors)

  unfoldable pub join_ack_message : Network → Bytes → Message
  join_ack_message n group_id = record {
    stamp = [];
    body = join_ack group_id (id_of n n.local_peer) (n.store n.local_peer).pub_id_key;
  }

  unfoldable pub acknowledge_join : PeerRef → GroupRef → Method Unit
  acknowledge_join p g = do
    modify (file_peer p)
    group_add_peer p g
    update_group g
    id ← local_group_id env
    ack ← gets (λ n. join_ack_message n id)
    send env ack p
    direct ← gets (λ n. is_neighbour (id_of n p) (n.group_store g))
    if direct then pure tt else start_timer join_timer p

  unfoldable pub join_notif_message : Network → PeerRef → Bytes → ℕ → Message
  join_notif_message n p id port = record {
    stamp = [];
    body =
        join_notif (make_channel_marker env id id) false id (id_of n p) (n.store p).pub_id_key
          (get_address (n.store p)) port;
  }

  -- The group is the local group: the code does not compute it from the ids yet.
  unfoldable pub answer_join_request : PeerRef → ℕ → Method Unit
  answer_join_request p port = do
    modify (λ n. record n { join_token = false })
    group ← pointee (λ (n : Network). n.local_group)
    group_id ← gets (λ n. (n.group_store group).id)
    notif ← gets (λ n. join_notif_message n p group_id port)
    broadcast env group notif true
    modify (λ n. record n { new_peers = erase (get_address (n.store p)) n.new_peers })
    local_id ← local_group_id env
    acknowledge ← gets (λ n. same (n.group_store group).id local_id)
    if acknowledge then acknowledge_join p group else pure tt
    start_timer ready_timer p

  -- The search of `check_for_new_peers`; a null pointer in the map is dereferenced.
  unfoldable pub first_known :
      Store → OrdMap Bytes (Option PeerRef × ℕ) → Result (Option (PeerRef × ℕ))
  first_known store [] = ok none
  first_known store ((addr, (none, port)) ∷ m) = fault
  first_known store ((addr, (some p, port)) ∷ m) =
      if is_known (store p) then ok (some (p, port)) else first_known store m

  unfoldable pub check_for_new_peers : Method Unit
  check_for_new_peers = do
    found ← results (λ (n : Network). first_known n.store n.new_peers)
    option_case found (modify (λ n. record n { join_token = true }))
        λ entry. answer_join_request entry.0 entry.1

  -- The handler of the join timer; `error` is its error code.
  unfoldable pub complete_join : Bool → PeerRef → Method Unit
  complete_join error p = if error then pure tt else do
    modify (write_peer p (set_state connected))
    modify (λ n. record n { join_timers = erase (id_of n p) n.join_timers })
    check_for_new_peers
