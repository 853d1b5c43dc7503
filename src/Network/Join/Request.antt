-- ===== src/Network/Join/Request.antt =====
-- What `join` sends to the entry point.
use rac_kun.Network.Send.{stamped}
use rac_kun.Network.{now, peer_send, true, ℕ, PeerRef}
use rac_kun.Network.Logs.{log_message, find_log, find_stamp, insert_log, new_control, acknowledge}
use rac_kun.Exec.{pure}
use rac_kun.Network.Join
use rac_kun.Network.Join.{connect_peer, or_none, allocate, add_new_peer}
use rac_kun.Network.Send.{send}
use rac_kun.Network.Send.Wire.{parse_message-send, stamp_now}
use rac_kun.Network.{Network, Env, Endpoint, Bytes, id_of, listen, listening, sent, ok, suc}
use rac_kun.Message.{
  Message, Body, serialize, parse_message, msg_stamp_length, id_length, key_length, make_stamp,
}
use rac_kun.Utils.{port_max}
use rac_kun.Exec.{◌>>=◌, gets, modify, option_case, try_catch, caught}
use rac_kun.OrdMap.{assign}
use rac_kun.Outcome.{Result, throw, fault, hang}
use rac_kun.Peer.{Peer, update, set_state, joining, make_peer, get_address}
use rac_kun.Text.{bytes_less}
use rac_kun.Prelude.{◌≡◌, ◌≢◌, ◌≤◌, length, some, refl, ◌∷◌, [], ◌∙◌, false, arith}
use mathlib.Core.Path.{ap}

pub caught_state : (r : Result Unit) (n : Network) → (caught r n).1 ≡ n
caught_state (ok a) n = refl
caught_state (throw e) n = refl
caught_state fault n = refl
caught_state hang n = refl

-- The node before the request is sent: the entry point is a new peer that waits, and is read from.
abbrev pub approached : Endpoint → Network → Network
approached e n =
    let store =
      update n.local_peer (set_state joining)
        (update n.next_peer (λ _. make_peer e.address e.port false) n.store) in
    record n {
      connections = suc n.connections;
      store = store;
      next_peer = suc n.next_peer;
      new_peers = assign (get_address (store n.next_peer)) (some n.next_peer, 0) n.new_peers;
      events = listening n.next_peer ∷ n.events;
    }

approached-remote :
    (e : Endpoint) (n : Network)
    → n.local_peer ≢ n.next_peer
    → ((approached e n).store n.next_peer).local ≡ false
unfolding update make_peer set_state
approached-remote e n other = ground (arith, other)

approached-local :
    (e : Endpoint) (n : Network)
    → n.local_peer ≢ n.next_peer
    → (approached e n).store n.local_peer ≡ set_state joining (n.store n.local_peer)
unfolding update
approached-local e n other = ground (arith, other)

module _ (env : Env) where
  -- The request of the local peer.
  abbrev pub request : Network → Message
  request n = record {
    stamp = [];
    body = Body.join (id_of n n.local_peer) (n.store n.local_peer).pub_id_key env.listen_port;
  }

  join-send :
      (ip port : Bytes) (e : Endpoint) (n : Network)
      → or_none (env.connects n.connections) (env.resolve n.connections ip port) ≡ some e
      → n.local_peer ≢ n.next_peer
      → (Join.join env ip port n).1
        ≡ (send env (request (approached e n)) n.next_peer (approached e n)).1
  unfolding Join.join connect_peer ◌>>=◌ gets modify option_case allocate add_new_peer listen
      try_catch
  join-send ip port e n reached other = rw (reached, approached-remote e n other) (caught_state _ _)

  request_kept :
      (e : Endpoint) (n : Network)
      → n.local_peer ≢ n.next_peer
      → request (approached e n) ≡ request n
  unfolding set_state
  request_kept e n other =
      ap (λ (x : Peer). record { stamp = []; body = Body.join x.id x.pub_id_key env.listen_port })
        (approached-local e n other)

  -- A message that is no broadcast is logged as it is sent, if the log is empty.
  send-logs :
      (id pub_k : Bytes) (port : ℕ) (p : PeerRef) (n : Network)
      → n.logs ≡ []
      → (n.store n.local_peer).local ≡ true
      → (n.store p).local ≡ false
      → let m : Message = record { stamp = []; body = Body.join id pub_k port } in
        (send env m p n).1.logs
        ≡ record { message = serialize (stamp_now env m n); control = [] } ∷ []
  unfolding send ◌>>=◌ gets modify stamped now peer_send log_message find_log find_stamp insert_log
      new_control acknowledge option_case make_stamp pure
  send-logs id pub_k port p n fresh own remote = rw (remote, fresh, own) refl

  -- After `join` the request is the only message in a log that was empty.
  pub join-logs :
      (ip port : Bytes) (e : Endpoint) (n : Network)
      → or_none (env.connects n.connections) (env.resolve n.connections ip port) ≡ some e
      → n.local_peer ≢ n.next_peer
      → (n.store n.local_peer).local ≡ true
      → n.logs ≡ []
      → (Join.join env ip port n).1.logs
        ≡ record { message = serialize (stamp_now env (request n) (approached e n)); control = [] }
          ∷ []
  unfolding set_state
  join-logs ip port e n reached other own fresh =
      let a = approached e n in
      ap (λ (s : Network). s.logs) (join-send ip port e n reached other)
      ∙ ap (λ m. (send env m n.next_peer a).1.logs) (request_kept e n other)
      ∙ send-logs (id_of n n.local_peer) (n.store n.local_peer).pub_id_key env.listen_port
          n.next_peer a fresh (ap (λ (x : Peer). x.local) (approached-local e n other) ∙ own)
          (approached-remote e n other)

  -- If the entry point is reached, and the local peer's id, its key and the port that the node listens
  -- on have their widths, and every hash has 20 bytes, then `join` reads from the new peer and sends it
  -- one message, which is read back as a JOIN request with the local peer's id and key and with that
  -- port. The new peer is another one than the local peer. This is so however the method ends.
  pub parse_message-join :
      (ip port : Bytes) (e : Endpoint) (n : Network)
      → ((s : Bytes) → length (env.sha1 s) ≡ msg_stamp_length)
      → length (id_of n n.local_peer) ≡ id_length
      → length (n.store n.local_peer).pub_id_key ≡ key_length
      → env.listen_port ≤ port_max
      → or_none (env.connects n.connections) (env.resolve n.connections ip port) ≡ some e
      → n.local_peer ≢ n.next_peer
      → (m : Message) × (m.body ≡ (request n).body)
        × (parse_message (serialize m) ≡ ok m)
        × ((Join.join env ip port n).1.events
            ≡ sent n.next_peer (serialize m) ∷ listening n.next_peer ∷ n.events)
  unfolding make_stamp
  parse_message-join ip port e n wide wide_id wide_key fits reached other =
      let (sends, parses) =
        parse_message-send env (request n) n.next_peer (approached e n) wide
          (wide_id, wide_key, fits) (approached-remote e n other) in
      (
        stamp_now env (request n) (approached e n),
        refl,
        parses,
        ap (λ (s : Network). s.events) (join-send ip port e n reached other)
            ∙ ap (λ m. (send env m n.next_peer (approached e n)).1.events) (request_kept e n other)
            ∙ sends,
      )
