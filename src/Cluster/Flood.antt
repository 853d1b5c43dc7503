-- ===== src/Cluster/Flood.antt =====
-- A broadcast through the whole cluster: from the node that begins it to the state in which nothing is
-- under way any more.
use rac_kun.Ring.{PeerMap}
use rac_kun.Text.{bytes_less}
use rac_kun.OrdMap.{find}
use rac_kun.Peer.{is_known}
use rac_kun.Cluster.{
  Packet, Wiring, Cluster, Step, deliver, Run, here, next, receiver, broadcasts, Bytes, quiet,
  PeerRef,
}
use rac_kun.Cluster.Spread.{Wired, Spread, succs, Sane, kept, advance-Spread, Left}
use rac_kun.Cluster.Routing.{Routes, datum, knows}
use rac_kun.Cluster.Relays.{
  view, Relays, reception-Receives, Receives, broadcast_data-Relays, own_marker, own_datum,
}
use rac_kun.Cluster.Packets.{Among, Has, Among-rest, All-rest, packet}
use rac_kun.Network.{Network, GroupRef}
use rac_kun.Network.Handlers.{handle_incoming_message, success}
use rac_kun.Network.Send.{broadcast_data}
use rac_kun.Message.{Message, serialize}
use rac_kun.Message.RoundTrip.{IsMessage}
use rac_kun.Prelude.{
  ℕ, [], ◌++◌, ◌≡◌, refl, inl, inr, All, ◌<◌, true, false, sym, ◌∙◌, subst, ap, some, ==_iff,
}

-- A node has the routes of a node that it agrees with.
abbrev viewed :
    {marker : Bytes} {n n' : Network} → view n' ≡ view n → Routes marker n → Routes marker n'
viewed {marker} e r = record {
  id = r.id;
  group = r.group;
  marked = ap (λ v. find marker v.channel_markers) e ∙ r.marked;
  grouped = ap (λ v. find r.id v.groups) e ∙ r.grouped;
  remote =
      subst (λ v. All (λ entry. (v.store entry.1).local ≡ false) (v.group_store r.group).successors)
        (sym e) r.remote;
}

module _ (w : Wiring) (fuel : ℕ) (stamp marker content : Bytes) (size : ℕ) (c : Cluster)
    (net : Wired w marker size c) (v : IsMessage (datum stamp marker content)) where
  -- The node that a packet is for does with it what it has to.
  pub delivery-Receives :
      (k : Packet) (d : Cluster)
      → Spread w marker size c net (datum stamp marker content) d
      → Sane w marker size c net (datum stamp marker content) k
      → Receives
          (w.far_node k.from k.to)
          (datum stamp marker content)
          content
          (succs w marker size c net (datum stamp marker content) (w.far_node k.from k.to))
          (d.node (w.far_node k.from k.to))
          (receiver w fuel k d)
  delivery-Receives k d s (from, bytes, has) =
      let m = datum stamp marker content in
      let j = w.far_node k.from k.to in
      let inside = net.inside k.from k.to from has in
      let same = s.same j inside in
      let r = net.routes j inside in
      let store = ap (λ v. (v.store (w.far_ref k.from k.to))) same in
      let (remote, known) = net.heard k.from k.to from has in
      let done =
        reception-Receives (w.env j) stamp marker content j fuel (w.far_ref k.from k.to) (d.node j)
          (viewed same r) v (ap (λ x. x.local) store ∙ remote) (ap is_known store ∙ known) in
      let group : ((d.node j).group_store r.group).successors ≡ succs w marker size c net m j =
        ap (λ v. (v.group_store r.group).successors) same
        ∙ ap (λ g. ((c.node j).group_store g).successors) (net.routed j inside) in
      subst
        (λ b.
          Receives j m content (succs w marker size c net m j) (d.node j)
            (handle_incoming_message (w.env j) fuel success b (w.far_ref k.from k.to)
              (quiet (d.node j))).1)
        (sym bytes)
        (subst
          (λ ss.
            Receives j m content ss (d.node j)
              (handle_incoming_message (w.env j) fuel success (serialize m) (w.far_ref k.from k.to)
                (quiet (d.node j))).1)
          group done)

  pub delivery-Relays :
      (k : Packet) (d : Cluster)
      → Spread w marker size c net (datum stamp marker content) d
      → Sane w marker size c net (datum stamp marker content) k
      → Relays
          (w.far_node k.from k.to)
          (datum stamp marker content)
          (succs w marker size c net (datum stamp marker content) (w.far_node k.from k.to))
          (d.node (w.far_node k.from k.to))
          (receiver w fuel k d)
  delivery-Relays k d s of_k = (delivery-Receives k d s of_k).relays

  pub Step-Spread :
      (d e : Cluster)
      → Step w fuel d e
      → Spread w marker size c net (datum stamp marker content) d
      → Spread w marker size c net (datum stamp marker content) e
  Step-Spread d e (deliver before after k eq eq') s =
      let m = datum stamp marker content in
      let j = w.far_node k.from k.to in
      let (of_k, rest) =
        All-rest (Sane w marker size c net m) before after k
          (subst (All (Sane w marker size c net m)) eq s.sane) in
      let left : Left w marker size c net m j (receiver w fuel k d) d (delivery-Relays k d s of_k)
          (before ++ after) =
        λ i p under.
          elim (Among-rest _ k before after (subst (Among (packet i (serialize m) p)) eq under)) [
            | inl same ↦ inr (ap (λ x. w.far_node x.from x.to) same)
            | inr others ↦ inl others
          ] in
      subst (Spread w marker size c net m) (sym eq') (
        advance-Spread w marker size c net m j (receiver w fuel k d) d (delivery-Relays k d s of_k)
          (before ++ after) (net.inside k.from k.to of_k.0 of_k.2) rest left s)

  pub Run-Spread :
      {d : Cluster} {s : ℕ} {e : Cluster}
      → Run w fuel d s e
      → Spread w marker size c net (datum stamp marker content) d
      → Spread w marker size c net (datum stamp marker content) e
  Run-Spread here s = s
  Run-Spread (next {d = d} {e = e} run step) s = Step-Spread d e step (Run-Spread run s)

  Step-kept :
      (d e : Cluster)
      → Step w fuel d e
      → Spread w marker size c net (datum stamp marker content) d
      → (i : ℕ) → knows (datum stamp marker content) (d.node i) ≡ true
      → knows (datum stamp marker content) (e.node i) ≡ true
  Step-kept d e (deliver before after k eq eq') s i known =
      let m = datum stamp marker content in
      let (of_k, _) =
        All-rest (Sane w marker size c net m) before after k
          (subst (All (Sane w marker size c net m)) eq s.sane) in
      subst (λ x. knows m (x.node i) ≡ true) (sym eq')
        (kept w marker size c net m (w.far_node k.from k.to) (receiver w fuel k d) (before ++ after)
          d (delivery-Relays k d s of_k).informed i known)

  pub Run-kept :
      {d : Cluster} {s : ℕ} {e : Cluster}
      → Run w fuel d s e
      → Spread w marker size c net (datum stamp marker content) d
      → (i : ℕ) → knows (datum stamp marker content) (d.node i) ≡ true
      → knows (datum stamp marker content) (e.node i) ≡ true
  Run-kept here s i known = known
  Run-kept (next {d = d} {e = e} run step) s i known =
      Step-kept d e step (Run-Spread run s) i (Run-kept run s i known)

-- A node that a chain of successors leads to, from the node that begins.
pub data Linked (w : Wiring) (succs_of : ℕ → PeerMap) (o : ℕ) : ℕ → Type 0 where
  origin : Linked w succs_of o o
  hop :
      {i : ℕ} (p : PeerRef)
      → Linked w succs_of o i
      → Has p (succs_of i)
      → Linked w succs_of o (w.far_node i p)

module _ (w : Wiring) (size : ℕ) (c : Cluster) (content : Bytes) (o : ℕ) (g : GroupRef)
    (net : Wired w (own_marker (w.env o) content g (c.node o)) size c) where
  abbrev pub message : Message
  message = own_datum (w.env o) content g (c.node o)

  -- Nothing is under way, and nobody knows the message that is to begin.
  pub record Begins : Type 0 where
    pub inside : o < size
    pub ours : (c.node o).local_group ≡ some g
    pub own : net.group o ≡ g
    pub fresh : (i : ℕ) → i < size → knows message (c.node i) ≡ false
    pub idle : c.flight ≡ []
    pub fits : IsMessage message

  module _ (b : Begins) where
    abbrev origin_node : Network
    origin_node = (broadcast_data (w.env o) content (quiet (c.node o))).1

    pub origin-Relays : Relays o message (succs w _ size c net message o) (c.node o) origin_node
    origin-Relays =
        let r = net.routes o b.inside in
        subst (λ h. Relays o message ((c.node o).group_store h).successors (c.node o) origin_node)
          (net.routed o b.inside)
          (broadcast_data-Relays (w.env o) content o g (c.node o) r b.ours
            (net.routed o b.inside ∙ b.own) (b.fresh o b.inside))

    pub start-Spread : Spread w _ size c net message c
    start-Spread = record {
      same = λ i h. refl;
      sane = subst (All (Sane w _ size c net message)) (sym b.idle) tt;
      covered = λ i p h has k. absurd (cc (k, b.fresh i h));
    }

    pub begun-Spread : Spread w _ size c net message (broadcasts w o content c)
    begun-Spread =
        advance-Spread w _ size c net message o origin_node c origin-Relays c.flight b.inside
          start-Spread.sane (λ i p under. inl under) start-Spread

    pub origin-knows : knows message ((broadcasts w o content c).node o) ≡ true
    origin-knows = rw ((==_iff o o).1 refl) origin-Relays.informed

    pub reached :
        (fuel : ℕ)
        → {s : ℕ} {d : Cluster} → Run w fuel (broadcasts w o content c) s d
        → d.flight ≡ []
        → (i : ℕ) → Linked w (succs w _ size c net message) o i
        → (i < size) × (knows message (d.node i) ≡ true)
    reached fuel run idle i origin =
        (b.inside, Run-kept w fuel _ _ content size c net b.fits run begun-Spread o origin-knows)
    reached fuel {d = d} run idle i (hop {i = h} p link has) =
        let (inside, known) = reached fuel run idle h link in
        let spread = Run-Spread w fuel _ _ content size c net b.fits run begun-Spread in
        (
          net.inside h p inside has,
          elim (spread.covered h p inside has known) [
            | inl there ↦ there
            | inr under ↦ absurd (subst (Among (packet h (serialize message) p)) idle under)
          ],
        )
