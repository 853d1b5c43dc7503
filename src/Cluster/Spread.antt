-- ===== src/Cluster/Spread.antt =====
-- How a broadcast spreads: whoever knows it has passed it on, or the packet is still under way.
use rac_kun.Cluster.{Packet, Wiring, Cluster, packets, put, advance}
use rac_kun.Cluster.Packets.{
  Among, Has, Among-left, Among-right, All-append, packet, Among-posts, All-posts,
}
use rac_kun.Cluster.Routing.{Routes, knows}
use rac_kun.Cluster.Relays.{view, Relays}
use rac_kun.Network.{Network, GroupRef}
use rac_kun.Message.{Message, serialize}
use rac_kun.Peer.{PeerRef, is_known}
use rac_kun.Ring.{PeerMap}
use rac_kun.Text.{Bytes}
use rac_kun.Prelude.{
  ℕ, List, [], ◌++◌, ◌≡◌, refl, ◌⊎◌, inl, inr, All, ◌<◌, true, false, Bool-cases, ◌==◌, ==_iff, sym,
  ◌∙◌, subst,
}

module _ (w : Wiring) (marker : Bytes) (size : ℕ) (c : Cluster) where
  -- Every node has a route for the marker, and whom it sends to is a node that knows it.
  pub record Wired : Type 0 where
    pub group : ℕ → GroupRef
    pub routes : (i : ℕ) → i < size → Routes marker (c.node i)
    pub routed : (i : ℕ) (h : i < size) → (routes i h).group ≡ group i
    pub inside :
        (i : ℕ) (p : PeerRef)
        → i < size
        → Has p ((c.node i).group_store (group i)).successors
        → w.far_node i p < size
    pub heard :
        (i : ℕ) (p : PeerRef)
        → i < size
        → Has p ((c.node i).group_store (group i)).successors
        → let peer = (c.node (w.far_node i p)).store (w.far_ref i p) in
          (peer.local ≡ false) × (is_known peer ≡ true)

  module _ (net : Wired) (m : Message) where
    abbrev pub succs : ℕ → PeerMap
    succs i = ((c.node i).group_store (net.group i)).successors

    abbrev pub Sane : Packet → Type 0
    Sane k = (k.from < size) × (k.bytes ≡ serialize m) × Has k.to (succs k.from)

    pub record Spread (d : Cluster) : Type 0 where
      pub same : (i : ℕ) → i < size → view (d.node i) ≡ view (c.node i)
      pub sane : All Sane d.flight
      pub covered :
          (i : ℕ) (p : PeerRef)
          → i < size
          → Has p (succs i)
          → knows m (d.node i) ≡ true
          → (knows m (d.node (w.far_node i p)) ≡ true) ⊎ Among (packet i (serialize m) p) d.flight

    -- A node knows the message after a step of another, if it did before.
    pub kept :
        (j : ℕ) (n' : Network) (flight : List Packet) (d : Cluster)
        → knows m n' ≡ true
        → (i : ℕ) → knows m (d.node i) ≡ true
        → knows m ((advance j n' flight d).node i) ≡ true
    kept j n' flight d h i k = elim (Bool-cases (j == i)) [ inl e ↦ rw e h | inr e ↦ rw e k ]

    module _ (j : ℕ) (n' : Network) (d : Cluster) (r : Relays j m (succs j) (d.node j) n') where
      at_step : knows m (put j n' d.node j) ≡ true
      at_step = rw ((==_iff j j).1 refl) r.informed

      sent-Sane : j < size → All Sane (packets j n'.events)
      sent-Sane inside = elim (Bool-cases (knows m (d.node j))) [
        | inl e ↦ rw (r.passed_on, e) tt
        | inr e ↦
            rw (r.passed_on, e)
              (All-posts Sane j (serialize m) (succs j) [] (λ p h. (inside, refl, h)) tt)
      ]

      -- A node that did not know the message sends it to its successors.
      sent_all :
          (p : PeerRef)
          → knows m (d.node j) ≡ false
          → Has p (succs j)
          → Among (packet j (serialize m) p) (packets j n'.events)
      sent_all p e h = rw (r.passed_on, e) (Among-posts j (serialize m) p (succs j) [] (inl h))

      -- What is left under way, and what is delivered.
      abbrev pub Left : List Packet → Type 0
      Left rest =
          (i : ℕ) (p : PeerRef)
          → Among (packet i (serialize m) p) d.flight
          → Among (packet i (serialize m) p) rest ⊎ (w.far_node i p ≡ j)

      covered_after :
          (rest : List Packet)
          → Left rest
          → Spread d
          → (i : ℕ) (p : PeerRef) → i < size
          → Has p (succs i)
          → knows m (put j n' d.node i) ≡ true
          → (knows m (put j n' d.node (w.far_node i p)) ≡ true)
            ⊎ Among (packet i (serialize m) p) (rest ++ packets j n'.events)
      covered_after rest left s i p h has k =
          let old : knows m (d.node i) ≡ true
              → (knows m (put j n' d.node (w.far_node i p)) ≡ true)
                ⊎ Among (packet i (serialize m) p) (rest ++ packets j n'.events) =
            λ o. elim (s.covered i p h has o) [
              | inl known ↦ inl (kept j n' [] d r.informed (w.far_node i p) known)
              | inr under ↦ elim (left i p under) [
                | inl rests ↦ inr (Among-left _ rest (packets j n'.events) rests)
                | inr here ↦
                    inl (subst (λ x. knows m (put j n' d.node x) ≡ true) (sym here) at_step)
              ]
            ] in
          elim (Bool-cases (j == i)) [
            | inr e ↦ old (rw e at k)
            | inl e ↦ elim (Bool-cases (knows m (d.node i))) [
              | inl o ↦ old o
              | inr o ↦
                  let same = sym ((==_iff j i).0 e) in
                  inr (
                    Among-right _ rest (packets j n'.events) (
                      subst (λ x. Among (packet x (serialize m) p) (packets j n'.events)) (sym same)
                        (sent_all p (subst (λ x. knows m (d.node x) ≡ false) same o)
                          (subst (λ x. Has p (succs x)) same has))))
            ]
          ]

      pub advance-Spread :
          (rest : List Packet)
          → j < size
          → All Sane rest
          → Left rest
          → Spread d
          → Spread (advance j n' rest d)
      advance-Spread rest inside sane_rest left s = record {
        same = λ i h. elim (Bool-cases (j == i)) [
          | inl e ↦ rw e (
              r.same_view
              ∙ subst (λ x. view (d.node j) ≡ view (c.node x)) ((==_iff j i).0 e) (s.same j inside))
          | inr e ↦ rw e (s.same i h)
        ];
        sane = All-append Sane rest (packets j n'.events) sane_rest (sent-Sane inside);
        covered = covered_after rest left s;
      }
