-- ===== src/Cluster/Broadcast.antt =====
-- What a broadcast comes to, in whatever order its packets are delivered.
use rac_kun.Network.{GroupRef}
use rac_kun.Cluster.{Wiring, Cluster, Run, broadcasts, Bytes, []}
use rac_kun.Cluster.Spread.{Wired, succs}
use rac_kun.Cluster.Routing.{knows}
use rac_kun.Cluster.Relays.{own_marker}
use rac_kun.Cluster.Flood.{
  Begins, message, begun-Spread, origin-Relays, Linked, reached, Run-Spread,
}
use rac_kun.Cluster.Count.{untold, links, owed, Run-owed, untold_same, advance-owed, Run-out}
use rac_kun.Prelude.{ℕ, ◌≡◌, false, ◌+◌, length, arith, ap, true}

module _ (w : Wiring) (fuel size : ℕ) (c : Cluster) (content : Bytes) (o : ℕ) (g : GroupRef)
    (net : Wired w (own_marker (w.env o) content g (c.node o)) size c)
    (b : Begins w size c content o g net) where
  -- In a cluster at rest whose nodes have routes for a marker and whose sockets lead to nodes that know
  -- the sender, a node broadcasts a line that no node has in its log. In each later state, whatever the
  -- order of deliveries, the deliveries so far, the packets under way and the successors of the nodes
  -- without the message add up to the successors of all nodes.
  pub flood_adds_up :
      (s : ℕ) (d : Cluster)
      → Run w fuel (broadcasts w o content c) s d
      → s + (length d.flight + owed w _ size c net (message w size c content o g net) d)
        ≡ untold (links w _ size c net (message w size c content o g net)) (λ i. false) size
  flood_adds_up s d run =
      let m = message w size c content o g net in
      omega (
        arith,
        ap length b.idle,
        Run-owed w fuel _ _ content size c net b.fits run (begun-Spread w size c content o g net b),
        advance-owed w _ size c net m o _ c.flight c b.inside
            (origin-Relays w size c content o g net b),
        untold_same (links w _ size c net m) (λ i. false) (λ i. knows m (c.node i)) size b.fresh,
      )

  -- In a cluster at rest whose nodes have routes for a marker and whose sockets lead to nodes that know
  -- the sender, a node broadcasts a line that no node has in its log. However the packets have been
  -- delivered so far, further deliveries lead to a state in which no packet is under way.
  pub flood_ends :
      (s : ℕ) (d : Cluster)
      → Run w fuel (broadcasts w o content c) s d
      → (t : ℕ) × (e : Cluster) × Run w fuel d t e × (e.flight ≡ [])
  flood_ends s d run =
      let left = length d.flight + owed w _ size c net (message w size c content o g net) d in
      Run-out w fuel _ _ content size c net b.fits left d (omega arith) (
        Run-Spread w fuel _ _ content size c net b.fits run
          (begun-Spread w size c content o g net b))

  -- In a cluster at rest whose nodes have routes for a marker and whose sockets lead to nodes that know
  -- the sender, a node broadcasts a line that no node has in its log. In each later state in which no
  -- packet is under way, each node that a chain of successors leads to has the message in its log.
  pub flood_reaches :
      (s : ℕ) (d : Cluster) (i : ℕ)
      → Run w fuel (broadcasts w o content c) s d
      → d.flight ≡ []
      → Linked w (succs w _ size c net (message w size c content o g net)) o i
      → knows (message w size c content o g net) (d.node i) ≡ true
  flood_reaches s d i run idle link = (reached w size c content o g net b fuel run idle i link).1
