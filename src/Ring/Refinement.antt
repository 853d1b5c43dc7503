-- ===== src/Ring/Refinement.antt =====
-- What a ring promises: a map from keys to peers. The abstract view forgets how the ring keeps them.
use rac_kun.OrdMap.Laws.{find-assign, find-erase}
use rac_kun.Ring.Updates.{remove_peer-erase, add_peer-IsRing, remove_peer-IsRing}
use rac_kun.Text.{bytes_less}
use rac_kun.Ring.Order.{IsRing, make_ring-IsRing}
use rac_kun.Prelude.{List, if◌then◌else◌, none, ◌≡◌, ◌∷◌, ◌++◌, [], ◌∙◌, some, refl, ℕ, Option}
use rac_kun.OrdMap.{find, same}
use rac_kun.Ring.{Ring, create_key, make_ring, PeerRef, Bytes}
use rac_kun.Utils.{make_hash, itos}
use rac_kun.Ring
use mathlib.Core.Path.{fun_ext, ap}

-- A peer joins or leaves the ring.
pub data Change : Type 0 where
  joins leaves : PeerRef → Change

-- Which peer is filed under which key.
abbrev pub View : Type 0
View = Bytes → Option PeerRef

abbrev pub view_of : Ring → View
view_of r k = find k r.ring

module _ (sha1 : Bytes → Bytes) (get_id : PeerRef → Bytes) where
  abbrev pub change : Change → Ring → Ring
  change (joins p) r = Ring.add_peer sha1 get_id p r
  change (leaves p) r = Ring.remove_peer sha1 get_id p r

  abbrev pub history : List Change → Ring → Ring
  history [] r = r
  history (c ∷ cs) r = history cs (change c r)

  module _ (index : ℕ) where
    abbrev pub place : PeerRef → Bytes
    place p = sha1 (get_id p ++ itos index)

    -- The specification of a change.
    abbrev pub change_view : Change → View → View
    change_view (joins p) v k = if same (place p) k then some p else v k
    change_view (leaves p) v k = if same (place p) k then none else v k

    abbrev pub history_view : List Change → View → View
    history_view [] v = v
    history_view (c ∷ cs) v = history_view cs (change_view c v)

    -- One change of the ring is one change of its view.
    change-refines :
        (c : Change) (r : Ring)
        → r.index ≡ index
        → IsRing sha1 get_id r
        → (k : Bytes) → view_of (change c r) k ≡ change_view c (view_of r) k
    unfolding Ring.add_peer create_key make_hash
    change-refines (joins p) r e v k =
        rw (← e) (find-assign (create_key sha1 get_id r (get_id p)) k p r.ring)
    change-refines (leaves p) r e v k =
        rw (← e, remove_peer-erase sha1 get_id p r)
          (find-erase (create_key sha1 get_id r (get_id p)) k r.ring v.sorted)

    change-index : (c : Change) (r : Ring) → (change c r).index ≡ r.index
    unfolding Ring.add_peer
    change-index (joins p) r = refl
    change-index (leaves p) r = rw (remove_peer-erase sha1 get_id p r)

    change-IsRing : (c : Change) (r : Ring) → IsRing sha1 get_id r → IsRing sha1 get_id (change c r)
    change-IsRing (joins p) r v = add_peer-IsRing sha1 get_id p v
    change-IsRing (leaves p) r v = remove_peer-IsRing sha1 get_id p v

    pub history-view :
        (cs : List Change) (r : Ring)
        → r.index ≡ index
        → IsRing sha1 get_id r
        → (view_of (history cs r) ≡ history_view cs (view_of r))
          × IsRing sha1 get_id (history cs r)
          × ((history cs r).index ≡ index)
    history-view [] r e v = (refl, v, e)
    history-view (c ∷ cs) r e v =
        let (same_view, ordered, kept) =
          history-view cs (change c r) (change-index c r ∙ e) (change-IsRing c r v) in
        (same_view ∙ ap (history_view cs) (fun_ext (change-refines c r e v)), ordered, kept)

    -- In every history of a ring from its start, peers joining and leaving in whatever order, the ring
    -- answers each key as the specification: the peer that joined last under it, if none has left
    -- under it since.
    pub history-refines :
        (cs : List Change) → view_of (history cs (make_ring index)) ≡ history_view cs (λ k. none)
    unfolding make_ring find
    history-refines cs =
        (history-view cs (make_ring index) refl (make_ring-IsRing sha1 get_id index)).0
