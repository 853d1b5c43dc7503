-- ===== src/Network/Send.antt =====
-- `send`, `broadcast`, `broadcast_data`, `send_all` and `send_ready` of src/Network.cpp.
pub mod Wire
use rac_kun.Text.{bytes_less}
use rac_kun.OrdMap.{erase}
use rac_kun.Network.Logs.{log_message}
use rac_kun.Prelude.{◌∷◌}
use rac_kun.Exec.{◌>>=◌, gets, pure, ◌>>◌, modify, pointee}
use rac_kun.Message.{Message, make_stamp, payload, ready, serialize}
use rac_kun.Network.{
  Env, Method, Bytes, Bool, GroupRef, PeerMap, PeerRef, now, if◌then◌else◌, [], make_channel_marker,
  id_of, true, peer_send,
}

-- A loop that sends to each peer of a map.
unfoldable pub send_each : Bytes → PeerMap → Method Unit
send_each msg [] = pure tt
send_each msg ((k, p) ∷ m) = peer_send msg p >> send_each msg m

module _ (env : Env) where
  -- `message->make_stamp(local_peer->get_id())`
  unfoldable pub stamped : Message → Method Message
  stamped m = do t ← now env; gets (λ n. make_stamp env.sha1 t (id_of n n.local_peer) m)

  unfoldable pub send : Message → PeerRef → Method Unit
  send m p = do
    m' ← stamped m
    peer_send (serialize m') p
    local ← gets (λ n. n.local_peer)
    log_message m' local

  -- `broadcast`, with the message stamped if it has to be
  unfoldable pub forward : GroupRef → Message → Method Unit
  forward g m = do
    succs ← gets (λ n. (n.group_store g).successors)
    send_each (serialize m) succs
    local ← gets (λ n. n.local_peer)
    log_message m local

  unfoldable pub broadcast : GroupRef → Message → Bool → Method Unit
  broadcast g m add_stamp =
      let stamp_it = stamped m >>= λ m'. forward g m' in if add_stamp then stamp_it else forward g m

  -- `local_group->get_id()`
  unfoldable pub local_group_id : Method Bytes
  local_group_id = do g ← pointee (λ n. n.local_group); gets (λ n. (n.group_store g).id)

  unfoldable pub broadcast_data : Bytes → Method Unit
  broadcast_data content = do
    g ← pointee (λ n. n.local_group)
    id ← local_group_id
    broadcast g (record { stamp = []; body = payload (make_channel_marker env id id) content }) true

  unfoldable pub send_all : Bytes → Method Unit
  send_all msg = do peers ← gets (λ n. n.peers); send_each msg peers

  -- The handler of the ready timer; `error` is its error code.
  unfoldable pub send_ready : Bool → PeerRef → Method Unit
  send_ready error p = if error then pure tt else do
    send (record { stamp = []; body = ready }) p
    modify (λ n. record n { ready_timers = erase (id_of n p) n.ready_timers })
