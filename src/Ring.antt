-- ===== src/Ring.antt =====
-- src/Ring.cpp, include/Ring.hpp: the peers of one ring in the order of hash(peer id ‖ ring index).
-- The store of peers shows only through `get_id`, which reads the id behind a pointer when it is
-- called.
pub mod Order
mod Modulo
pub mod Cycle
pub mod Relay
pub mod Updates
pub mod Refinement
pub mod Canonical
use rac_kun.Prelude.{
  ℕ, suc, ◌-◌, Bool, ◌&&◌, not, [], ◌++◌, ltb, ◌==◌, if◌then◌else◌, length, get_elem?, map, Option,
}
use mathlib.Core.Option
use rac_kun.Outcome.{Result, ok, throw, peer_not_found, deref, ◌>>=◌}
use rac_kun.Text.{Bytes, bytes_less}
use rac_kun.OrdMap.{OrdMap, assign, erase, position}
use rac_kun.Utils.{itos, make_hash}
use rac_kun.Peer.{PeerRef}

abbrev pub PeerMap : Type 0
PeerMap = OrdMap Bytes PeerRef

pub record Ring : Type 0 where
  pub index : ℕ
  pub ring : PeerMap

unfoldable pub make_ring : ℕ → Ring
make_ring index = record { index = index; ring = [] }

module _ (sha1 : Bytes → Bytes) (get_id : PeerRef → Bytes) where
  unfoldable pub create_key : Ring → Bytes → Bytes
  unfolding make_hash
  create_key r id = make_hash sha1 (id ++ itos r.index)

  unfoldable pub add_peer : PeerRef → Ring → Ring
  add_peer p r = record r { ring = assign (create_key r (get_id p)) p r.ring }

  unfoldable pub find_peer : PeerRef → Ring → ℕ
  find_peer p r = position (create_key r (get_id p)) r.ring

  unfoldable pub remove_peer : PeerRef → Ring → Ring
  remove_peer p r =
      if find_peer p r == length r.ring
      then r
      else record r { ring = erase (create_key r (get_id p)) r.ring }

  -- The peer behind an iterator.
  abbrev pub at : Ring → ℕ → Result PeerRef
  at r i = deref (Option.map (λ e. e.1) (get_elem? r.ring i))

  unfoldable pub get_successor : PeerRef → Ring → Result PeerRef
  get_successor p r =
      let it = find_peer p r in
      let size = length r.ring in
      if not (it == size) && ltb 1 size
      then (if not (suc it == size) then at r (suc it) else at r 0)
      else throw peer_not_found

  unfoldable pub get_predecessor : PeerRef → Ring → Result PeerRef
  get_predecessor p r =
      let it = find_peer p r in
      let size = length r.ring in
      if not (it == size) && ltb 1 size
      then (if not (it == 0) then at r (it - 1) else at r (size - 1))
      else throw peer_not_found
