-- ===== src/Ring/Updates.antt =====
-- Joining and leaving a ring.

use rac_kun.Prelude.{◌≡◌, ◌≢◌, refl, ap, ◌∙◌, arith}
use rac_kun.Text.{Bytes, bytes_less}
use rac_kun.OrdMap.{erase}
use rac_kun.OrdMap.Laws.{
  assign-IsSorted, erase-IsSorted, All-assign, All-erase, position_missing, erase_missing,
  find-erase, assign_comm, erase-assign, find_missing, same_refl,
}
use rac_kun.Peer.{PeerRef}
use rac_kun.Ring.{Ring, create_key, add_peer, remove_peer, find_peer}
use rac_kun.Ring.Order.{size, IsRing, key}

module _ (sha1 : Bytes → Bytes) (get_id : PeerRef → Bytes) where
  -- `add_peer` keeps a ring in order: the keys rise, and each is the key of the peer filed under it.
  pub add_peer-IsRing :
      {r : Ring} (p : PeerRef)
      → IsRing sha1 get_id r
      → IsRing sha1 get_id (add_peer sha1 get_id p r)
  unfolding add_peer create_key
  add_peer-IsRing {r} p v = record {
    sorted = assign-IsSorted (key sha1 get_id r p) p r.ring v.sorted;
    keyed =
        All-assign (λ e. key sha1 get_id r e.1 ≡ e.0) (key sha1 get_id r p) p r.ring refl v.keyed;
  }

  pub remove_peer-erase :
      (p : PeerRef) (r : Ring)
      → (remove_peer sha1 get_id p r) ≡ record r { ring = erase (key sha1 get_id r p) r.ring }
  unfolding remove_peer find_peer
  remove_peer-erase p r = ground (arith, erase_missing (key sha1 get_id r p) r.ring)

  -- `remove_peer` keeps a ring in order, whether or not the peer is on it.
  pub remove_peer-IsRing :
      {r : Ring} (p : PeerRef)
      → IsRing sha1 get_id r
      → IsRing sha1 get_id (remove_peer sha1 get_id p r)
  unfolding create_key
  remove_peer-IsRing {r} p v = rw (remove_peer-erase p r) (record {
    sorted = erase-IsSorted (key sha1 get_id r p) r.ring v.sorted;
    keyed = All-erase (λ e. key sha1 get_id r e.1 ≡ e.0) (key sha1 get_id r p) r.ring v.keyed;
  })

  -- Two peers with different keys on a ring in order may be added in either order.
  pub add_peer_comm :
      {r : Ring} (p q : PeerRef)
      → IsRing sha1 get_id r
      → key sha1 get_id r p ≢ key sha1 get_id r q
      → add_peer sha1 get_id p (add_peer sha1 get_id q r)
        ≡ add_peer sha1 get_id q (add_peer sha1 get_id p r)
  unfolding add_peer create_key
  add_peer_comm {r} p q v h =
      ap (λ m. record r { ring = m })
        (assign_comm (key sha1 get_id r p) (key sha1 get_id r q) p q r.ring v.sorted h)

  -- On a ring in order, removing a peer that was just added restores the ring, if the ring did not
  -- hold the peer's key before.
  pub remove_peer-add_peer :
      {r : Ring} (p : PeerRef)
      → IsRing sha1 get_id r
      → find_peer sha1 get_id p r ≡ size r
      → remove_peer sha1 get_id p (add_peer sha1 get_id p r) ≡ r
  unfolding add_peer create_key find_peer
  remove_peer-add_peer {r} p v h =
      remove_peer-erase p _
      ∙ ap (λ m. record r { ring = m })
          (erase-assign (key sha1 get_id r p) p r.ring v.sorted
            (find_missing (key sha1 get_id r p) r.ring h))

  -- On a ring in order, a removed peer is no longer found.
  pub find_peer-remove_peer :
      {r : Ring} (p : PeerRef)
      → IsRing sha1 get_id r
      → find_peer sha1 get_id p (remove_peer sha1 get_id p r) ≡ size (remove_peer sha1 get_id p r)
  unfolding create_key find_peer
  find_peer-remove_peer {r} p v = rw (remove_peer-erase p r) (
      position_missing (key sha1 get_id r p) _
        (find-erase (key sha1 get_id r p) (key sha1 get_id r p) r.ring v.sorted ∙ rw same_refl))
