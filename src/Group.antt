-- ===== src/Group.antt =====
-- src/Group.cpp, include/Group.hpp: the peers of a group, its rings, and the local peer's neighbours
-- in them. A loop over the array `rings` is a `map` or a recursion over a list of `rings_nb` rings.
pub mod Members
pub mod Neighbours
use mathlib.Core.List.{foldl}
use rac_kun.Prelude.{ℕ, suc, zero, ◌+◌, ◌≡◌, Bool, true, false, List, [], ◌∷◌, map, none, some}
use rac_kun.Outcome.{
  Result, ok, throw, fault, hang, peer_not_found, out_of_range, message_parse, system_error, ◌>>=◌,
}
use rac_kun.Text.{Bytes, bytes_less}
use rac_kun.OrdMap.{find, insert, erase}
use rac_kun.Peer.{PeerRef}
use rac_kun.Ring
use rac_kun.Ring.{Ring, PeerMap, make_ring, get_successor, get_predecessor}

abbrev pub rings_nb : ℕ
rings_nb = 5

pub record Group : Type 0 where
  pub peers : PeerMap
  pub id : Bytes
  pub predecessors : PeerMap
  pub successors : PeerMap
  pub rings : List Ring

-- The rings from an index on.
unfoldable pub make_rings : ℕ → ℕ → List Ring
make_rings zero i = []
make_rings (suc n) i = make_ring i ∷ make_rings n (suc i)

unfoldable pub make_group : Bytes → Group
make_group id = record {
  peers = [];
  id = id;
  predecessors = [];
  successors = [];
  rings = make_rings rings_nb 0;
}

module _ (sha1 : Bytes → Bytes) (get_id : PeerRef → Bytes) where
  -- `add_to_rings(shared_ptr<Peer>)`
  unfoldable pub add_to_rings : PeerRef → Group → Group
  add_to_rings p g = record g { rings = map (Ring.add_peer sha1 get_id p) g.rings }

  -- The inner loop of `add_to_rings(shared_ptr<Group>)`.
  unfoldable pub add_peers : PeerMap → Ring → Ring
  add_peers [] r = r
  add_peers ((k, p) ∷ m) r = add_peers m (Ring.add_peer sha1 get_id p r)

  -- `add_to_rings(shared_ptr<Group>)`, which reads a copy of the other group's peers
  unfoldable pub add_group_to_rings : Group → Group → Group
  add_group_to_rings other g = record g { rings = map (add_peers other.peers) g.rings }

  unfoldable pub add_peer : PeerRef → Group → Group
  add_peer p g = add_to_rings p (record g { peers = insert (get_id p) p g.peers })

  -- The Boolean is whether the peer was in the group.
  unfoldable pub remove_peer : PeerRef → Group → Group × Bool
  remove_peer p g = (
    record g {
      rings = map (Ring.remove_peer sha1 get_id p) g.rings;
      peers = erase (get_id p) g.peers;
    },
    elim (find (get_id p) g.peers) [ none ↦ false | some q ↦ true ],
  )

  -- The loop of `update_neighbours` over its two local maps.
  unfoldable pub collect : PeerRef → List Ring → PeerMap → PeerMap → Result (PeerMap × PeerMap)
  collect local_peer [] preds succs = ok (preds, succs)
  collect local_peer (r ∷ rs) preds succs = do
    p ← get_predecessor sha1 get_id local_peer r
    q ← get_successor sha1 get_id local_peer r
    collect local_peer rs (insert (get_id p) p preds) (insert (get_id q) q succs)

  -- The end of the `try` block, and the handler, which catches `PeerNotFoundException` alone.
  unfoldable pub settle : Group → Result (PeerMap × PeerMap) → Result Group
  settle g (ok (preds, succs)) = ok (record g { predecessors = preds; successors = succs })
  settle g (throw peer_not_found) = ok (record g { predecessors = []; successors = [] })
  settle g (throw e) = throw e
  settle g fault = fault
  settle g hang = hang

  unfoldable pub update_neighbours : PeerRef → Group → Result Group
  update_neighbours local_peer g = settle g (collect local_peer g.rings [] [])
