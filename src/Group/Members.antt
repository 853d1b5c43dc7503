-- ===== src/Group/Members.antt =====
-- The members of a group and its rings: every operation keeps each member on every ring.
use rac_kun.Prelude.{
  ℕ, ◌<◌, ◌≡◌, ◌≢◌, refl, List, [], ◌∷◌, length, All, map, length-map, ◌∙◌, All-map, All-zip,
  All-imp,
}
use rac_kun.Text.{Bytes, bytes_less}
use rac_kun.OrdMap.{erase}
use rac_kun.OrdMap.Laws.{
  IsSorted, insert-IsSorted, erase-IsSorted, All-insert, All-erase, position-assign_self,
  position-assign, position-erase, All-erase_ne,
}
use rac_kun.Peer.{PeerRef}
use rac_kun.Ring
use rac_kun.Ring.{Ring, find_peer, make_ring, create_key}
use rac_kun.Ring.Order.{IsRing, size, make_ring-IsRing, key}
use rac_kun.Ring.Updates.{add_peer-IsRing, remove_peer-IsRing, remove_peer-erase}
use rac_kun.Group.{
  Group, make_group, make_rings, rings_nb, add_to_rings, add_peers, add_group_to_rings, add_peer,
  remove_peer, PeerMap,
}

module _ (sha1 : Bytes → Bytes) (get_id : PeerRef → Bytes) where
  -- The ring holds the peer's key.
  abbrev pub OnRing : PeerRef → Ring → Type 0
  OnRing p r = find_peer sha1 get_id p r < size r

  add_peer-OnRing : (p : PeerRef) (r : Ring) → OnRing p (Ring.add_peer sha1 get_id p r)
  unfolding Ring.add_peer find_peer create_key
  add_peer-OnRing p r = position-assign_self (key sha1 get_id r p) p r.ring

  add_peer-OnRing_other :
      (p q : PeerRef) (r : Ring) → OnRing q r → OnRing q (Ring.add_peer sha1 get_id p r)
  unfolding Ring.add_peer find_peer create_key
  add_peer-OnRing_other p q r h =
      position-assign (key sha1 get_id r p) (key sha1 get_id r q) p r.ring h

  remove_peer-OnRing :
      (p q : PeerRef) (r : Ring)
      → IsRing sha1 get_id r
      → key sha1 get_id r p ≢ key sha1 get_id r q
      → OnRing q r
      → OnRing q (Ring.remove_peer sha1 get_id p r)
  unfolding find_peer create_key
  remove_peer-OnRing p q r v n h =
      rw (remove_peer-erase sha1 get_id p r)
        (position-erase (key sha1 get_id r p) (key sha1 get_id r q) r.ring v.sorted n h)

  abbrev pub OnRings : PeerRef → List Ring → Type 0
  OnRings p rs = All (OnRing p) rs

  -- The rings are in order, there are five, the peers are filed under their ids, and each is on
  -- every ring.
  pub record IsGroup (g : Group) : Type 0 where
    pub count : length g.rings ≡ rings_nb
    pub rings_valid : All (IsRing sha1 get_id) g.rings
    pub sorted : IsSorted g.peers
    pub keyed : All (λ e. get_id e.1 ≡ e.0) g.peers
    pub on_rings : All (λ e. OnRings e.1 g.rings) g.peers

  pub make_group-IsGroup : (id : Bytes) → IsGroup (make_group id)
  unfolding make_group make_rings
  make_group-IsGroup id = record {
    count = refl;
    rings_valid = (fresh 0, (fresh 1, (fresh 2, (fresh 3, (fresh 4, tt)))));
    sorted = tt;
    keyed = tt;
    on_rings = tt;
  }
    where
      fresh : (i : ℕ) → IsRing sha1 get_id (make_ring i)
      fresh = make_ring-IsRing sha1 get_id

  map-OnRings :
      (p q : PeerRef) (rs : List Ring)
      → OnRings q rs
      → OnRings q (map (Ring.add_peer sha1 get_id p) rs)
  map-OnRings p q rs =
      All-map (OnRing q) (OnRing q) (Ring.add_peer sha1 get_id p) rs (add_peer-OnRing_other p q)

  -- `add_to_rings` puts the peer on every ring of the group.
  pub add_to_rings-OnRings :
      (p : PeerRef) (g : Group) → OnRings p (add_to_rings sha1 get_id p g).rings
  unfolding add_to_rings
  add_to_rings-OnRings p g = go g.rings
    where
      go : (rs : List Ring) → OnRings p (map (Ring.add_peer sha1 get_id p) rs)
      go [] = tt
      go (r ∷ rs) = (add_peer-OnRing p r, go rs)

  pub add_to_rings-IsGroup :
      {g : Group} (p : PeerRef) → IsGroup g → IsGroup (add_to_rings sha1 get_id p g)
  unfolding add_to_rings
  add_to_rings-IsGroup {g} p v = record {
    count = length-map g.rings (Ring.add_peer sha1 get_id p) ∙ v.count;
    rings_valid =
        All-map (IsRing sha1 get_id) (IsRing sha1 get_id) (Ring.add_peer sha1 get_id p) g.rings
          (λ r. add_peer-IsRing sha1 get_id p) v.rings_valid;
    sorted = v.sorted;
    keyed = v.keyed;
    on_rings =
        All-imp (λ e. OnRings e.1 g.rings) _ g.peers (λ e. map-OnRings p e.1 g.rings) v.on_rings;
  }

  -- `add_peer` keeps a group well formed: its five rings are in order, its peers are filed under their
  -- ids, and each of them is on every ring.
  pub add_peer-IsGroup : {g : Group} (p : PeerRef) → IsGroup g → IsGroup (add_peer sha1 get_id p g)
  unfolding add_peer add_to_rings
  add_peer-IsGroup {g} p v =
      let w = add_to_rings-IsGroup p v in
      record {
        count = w.count;
        rings_valid = w.rings_valid;
        sorted = insert-IsSorted (get_id p) p g.peers v.sorted;
        keyed = All-insert (λ e. get_id e.1 ≡ e.0) (get_id p) p g.peers refl v.keyed;
        on_rings =
            All-insert (λ e. OnRings e.1 (add_to_rings sha1 get_id p g).rings) (get_id p) p g.peers
              (add_to_rings-OnRings p g) w.on_rings;
      }

  add_peers-IsRing :
      (m : PeerMap) {r : Ring}
      → IsRing sha1 get_id r
      → IsRing sha1 get_id (add_peers sha1 get_id m r)
  unfolding add_peers
  add_peers-IsRing [] v = v
  add_peers-IsRing ((k, p) ∷ m) v = add_peers-IsRing m (add_peer-IsRing sha1 get_id p v)

  add_peers-OnRing_other :
      (m : PeerMap) (q : PeerRef) (r : Ring) → OnRing q r → OnRing q (add_peers sha1 get_id m r)
  unfolding add_peers
  add_peers-OnRing_other [] q r h = h
  add_peers-OnRing_other ((k, p) ∷ m) q r h =
      add_peers-OnRing_other m q (Ring.add_peer sha1 get_id p r) (add_peer-OnRing_other p q r h)

  add_peers-OnRing : (m : PeerMap) (r : Ring) → All (λ e. OnRing e.1 (add_peers sha1 get_id m r)) m
  unfolding add_peers
  add_peers-OnRing [] r = tt
  add_peers-OnRing ((k, p) ∷ m) r =
      let r' = Ring.add_peer sha1 get_id p r in
      (add_peers-OnRing_other m p r' (add_peer-OnRing p r), add_peers-OnRing m r')

  -- Adding another group's peers to the rings keeps a group well formed.
  pub add_group_to_rings-IsGroup :
      {g : Group} (other : Group) → IsGroup g → IsGroup (add_group_to_rings sha1 get_id other g)
  unfolding add_group_to_rings
  add_group_to_rings-IsGroup {g} other v =
      let f = add_peers sha1 get_id other.peers in
      record {
        count = length-map g.rings f ∙ v.count;
        rings_valid =
            All-map (IsRing sha1 get_id) (IsRing sha1 get_id) f g.rings
              (λ r. add_peers-IsRing other.peers) v.rings_valid;
        sorted = v.sorted;
        keyed = v.keyed;
        on_rings =
            All-imp (λ e. OnRings e.1 g.rings) _ g.peers
              (λ e.
                All-map (OnRing e.1) (OnRing e.1) f g.rings
                  (add_peers-OnRing_other other.peers e.1))
              v.on_rings;
      }

  -- On no ring does the peer share its key with another member.
  abbrev pub NoClash : PeerRef → Group → Type 0
  NoClash p g =
      All (λ e. All (λ r. get_id p ≢ e.0 → key sha1 get_id r p ≢ key sha1 get_id r e.1) g.rings)
        g.peers

  -- A ring that `p` leaves keeps the other members.
  remove_peer-OnRings :
      (p q : PeerRef) (k : Bytes) (rs : List Ring)
      → get_id p ≢ k
      → All (λ r. get_id p ≢ k → key sha1 get_id r p ≢ key sha1 get_id r q) rs
      → All (IsRing sha1 get_id) rs
      → OnRings q rs
      → OnRings q (map (Ring.remove_peer sha1 get_id p) rs)
  remove_peer-OnRings p q k [] n d w h = tt
  remove_peer-OnRings p q k (r ∷ rs) n d w h =
      (remove_peer-OnRing p q r w.0 (d.0 n) h.0, remove_peer-OnRings p q k rs n d.1 w.1 h.1)

  -- `remove_peer` keeps a group well formed, if the peer's keys differ from those of the members with
  -- other ids.
  pub remove_peer-IsGroup :
      {g : Group} (p : PeerRef) → IsGroup g → NoClash p g → IsGroup (remove_peer sha1 get_id p g).0
  unfolding remove_peer
  remove_peer-IsGroup {g} p v n =
      let f = Ring.remove_peer sha1 get_id p in
      let others = All-erase_ne (get_id p) g.peers v.sorted in
      let left = All-erase _ (get_id p) g.peers (All-zip _ _ g.peers n v.on_rings) in
      record {
        count = length-map g.rings f ∙ v.count;
        rings_valid =
            All-map (IsRing sha1 get_id) (IsRing sha1 get_id) f g.rings
              (λ r. remove_peer-IsRing sha1 get_id p) v.rings_valid;
        sorted = erase-IsSorted (get_id p) g.peers v.sorted;
        keyed = All-erase (λ e. get_id e.1 ≡ e.0) (get_id p) g.peers v.keyed;
        on_rings =
            All-imp _ _ (erase (get_id p) g.peers)
              (λ e h. remove_peer-OnRings p e.1 e.0 g.rings h.0 h.1.0 v.rings_valid h.1.1)
              (All-zip _ _ (erase (get_id p) g.peers) others left);
      }
