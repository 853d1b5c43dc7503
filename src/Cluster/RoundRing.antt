-- ===== src/Cluster/RoundRing.antt =====
-- A broadcast in a cluster whose nodes are the peers of one ring.
use rac_kun.Cluster.{Wiring, Cluster, Bytes, PeerRef, Run, broadcasts, []}
use rac_kun.Cluster.Broadcast.{flood_reaches}
use rac_kun.Cluster.Routing.{knows}
use rac_kun.Cluster.Relays.{own_marker}
use rac_kun.Cluster.Spread.{Wired, succs}
use rac_kun.Network.{GroupRef}
use rac_kun.Cluster.Packets.{Has}
use rac_kun.Ring.{Ring, get_successor, PeerMap}
use rac_kun.Ring.Order
use rac_kun.Ring.Order
use rac_kun.Ring.Order.{IsRing, peer_at, size}
use rac_kun.Ring.Relay.{relay, relay_reaches, relay-seat}
use rac_kun.Cluster.Flood.{Linked, origin, hop, Begins, message}
use rac_kun.Outcome.{>>=-eq-ok, ok}
use rac_kun.Prelude.{ℕ, ◌≡◌, zero, suc, subst, ◌<◌, some, true, ◌+◌, ◌%◌}

-- Among the successors of each node on the ring, in which a peer stands for the node of its number,
-- there is its successor on the ring.
abbrev pub RingWired : Wiring → (ℕ → PeerMap) → (Bytes → Bytes) → (ℕ → Bytes) → Ring → Type 0
RingWired w succs_of sha1 ids r =
    (a i j : ℕ)
    → peer_at r a ≡ some i
    → get_successor sha1 ids i r ≡ ok j
    → (p : PeerRef) × Has p (succs_of i) × (w.far_node i p ≡ j)

module _ (w : Wiring) (succs_of : ℕ → PeerMap) (sha1 : Bytes → Bytes) (ids : ℕ → Bytes) {r : Ring}
    (v : IsRing sha1 ids r) (wired : RingWired w succs_of sha1 ids r) where
  relay-Linked :
      (a o s j : ℕ)
      → 1 < size r
      → peer_at r a ≡ some o
      → relay sha1 ids r s o ≡ ok j
      → Linked w succs_of o j
  relay-Linked a o zero j big begins e =
      let same : o ≡ j = cc e in subst (Linked w succs_of o) same origin
  relay-Linked a o (suc s) j big begins e =
      let (i, before, last) =
        >>=-eq-ok (relay sha1 ids r s o) (λ q. get_successor sha1 ids q r) e in
      let seat = relay-seat sha1 ids v a s o i big begins before in
      let (p, has, far) = wired ((a + s) % size r) i j seat last in
      subst (Linked w succs_of o) far (hop p (relay-Linked a o s i big begins before) has)

module _ (w : Wiring) (fuel size : ℕ) (c : Cluster) (content : Bytes) (o : ℕ) (g : GroupRef)
    (net : Wired w (own_marker (w.env o) content g (c.node o)) size c)
    (b : Begins w size c content o g net) (sha1 : Bytes → Bytes) (ids : ℕ → Bytes) (r : Ring)
    (v : IsRing sha1 ids r)
    (wired : RingWired w (succs w _ size c net (message w size c content o g net)) sha1 ids r) where
  -- In a cluster at rest whose nodes have routes for a marker and whose sockets lead to nodes that know
  -- the sender, a node broadcasts a line that no node has in its log. If the node is on a ring in order
  -- with more than one peer, and among the successors of each node on the ring there is its successor on
  -- the ring, then in each later state in which no packet is under way, all nodes on the ring have the
  -- message in their logs.
  pub ring_hears :
      (a z i : ℕ) (s : ℕ) (d : Cluster)
      → 1 < Order.size r
      → peer_at r a ≡ some o
      → peer_at r z ≡ some i
      → Run w fuel (broadcasts w o content c) s d
      → d.flight ≡ []
      → knows (message w size c content o g net) (d.node i) ≡ true
  ring_hears a z i s d big begins there run idle =
      let (hops, _, leads) = relay_reaches sha1 ids v a z o i big begins there in
      flood_reaches w fuel size c content o g net b s d i run idle
        (relay-Linked w _ sha1 ids v wired a o hops i big begins leads)
