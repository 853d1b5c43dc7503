-- ===== src/Cluster.antt =====
-- Several nodes and the messages that are under way between them. A packet is delivered to the node at
-- the other end of its sender's socket, which handles it (src/Network.cpp, `handle_incoming_message`)
-- and sends what it sends. Packets are delivered in any order.
pub mod Routing
pub mod Relays
pub mod Packets
pub mod Spread
pub mod Flood
pub mod Count
pub mod Display
pub mod Broadcast
pub mod RoundRing
pub mod Founding
pub mod Handshake
use rac_kun.Text.{Bytes}
use rac_kun.Prelude.{ℕ, List, [], ◌∷◌, ◌++◌, ◌≡◌, ◌==◌, if◌then◌else◌, suc, zero}
use rac_kun.Peer.{PeerRef}
use rac_kun.Network.{Env, Network, Event, sent, listening, started, shown}
use rac_kun.Network.Handlers.{handle_incoming_message, success}
use rac_kun.Network.Send.{broadcast_data}

-- What a node sent through one of its peers.
pub record Packet : Type 0 where
  pub from : ℕ
  pub to : PeerRef
  pub bytes : Bytes

-- The nodes' environments, and the sockets: the node at the other end of a node's peer, and the
-- reference that the sender has there.
pub record Wiring : Type 0 where
  pub env : ℕ → Env
  pub far_node : ℕ → PeerRef → ℕ
  pub far_ref : ℕ → PeerRef → PeerRef

pub record Cluster : Type 0 where
  pub node : ℕ → Network
  pub flight : List Packet

-- The packets among a node's events.
abbrev pub packets : ℕ → List Event → List Packet
packets i [] = []
packets i (sent p msg ∷ events) = record { from = i; to = p; bytes = msg } ∷ packets i events
packets i (listening p ∷ events) = packets i events
packets i (started t p time ∷ events) = packets i events
packets i (shown p content ∷ events) = packets i events

-- The node's events start anew: those before have been acted on.
abbrev pub quiet : Network → Network
quiet n = record n { events = [] }

abbrev pub put : ℕ → Network → (ℕ → Network) → ℕ → Network
put j n nodes i = if j == i then n else nodes i

-- A node's state after a step of its own, and its packets behind those under way.
abbrev pub advance : ℕ → Network → List Packet → Cluster → Cluster
advance j n flight c = record { node = put j n c.node; flight = flight ++ packets j n.events }

module _ (w : Wiring) (fuel : ℕ) where
  abbrev pub receiver : Packet → Cluster → Network
  receiver k c =
      let j = w.far_node k.from k.to in
      (handle_incoming_message (w.env j) fuel success k.bytes (w.far_ref k.from k.to)
        (quiet (c.node j))).1

  -- The delivery of one of the packets under way.
  pub data Step (c d : Cluster) : Type 0 where
    deliver :
        (before after : List Packet) (k : Packet)
        → c.flight ≡ before ++ k ∷ after
        → d ≡ advance (w.far_node k.from k.to) (receiver k c) (before ++ after) c
        → Step c d

  -- So many deliveries.
  pub data Run (c : Cluster) : ℕ → Cluster → Type 0 where
    here : Run c zero c
    next : {s : ℕ} {d e : Cluster} → Run c s d → Step d e → Run c (suc s) e

-- A node broadcasts a line.
abbrev pub broadcasts : Wiring → ℕ → Bytes → Cluster → Cluster
broadcasts w o content c =
    advance o (broadcast_data (w.env o) content (quiet (c.node o))).1 c.flight c
