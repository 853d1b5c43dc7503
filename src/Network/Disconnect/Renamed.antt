-- ===== src/Network/Disconnect/Renamed.antt =====
-- A known peer that asks to join again, under another id, and then disconnects: the case of a JOIN
-- request in `handle_incoming_message`, and `handle_disconnect`, of src/Network.cpp.
use rac_kun.Text.{bytes_less}
use rac_kun.Message.{Message, Body}
use rac_kun.Peer.{set_state, init, joining}
use rac_kun.Network.{Env, PeerRef, Bytes, ℕ, Network, OrdMap, Option, MessageLog, List, write_peer}

module _ (env : Env) (stamp id pub_k : Bytes) (port : ℕ) (p : PeerRef) where
  abbrev request : Message
  request = record { stamp = stamp; body = Body.join id pub_k port }

  -- The peer has its new id, and what else the request changes.
  abbrev asked : List MessageLog → OrdMap Bytes (Option PeerRef × ℕ) → Network → Network
  asked ls waiting n = record (write_peer p (λ q. set_state joining (init id pub_k q)) n) {
    logs = ls;
    new_peers = waiting;
  }
