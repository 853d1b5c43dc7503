-- ===== src/Examples/Groups.antt =====
-- A group of the peers 3 and 7.
use rac_kun.Ring.Order.{key}
use rac_kun.Text.{lt_bytes}
use rac_kun.OrdMap.{insert}
use rac_kun.Ring.{create_key, Ring}
use rac_kun.Utils.{make_hash}
use rac_kun.Prelude.{◌≢◌, List, All}
use rac_kun.Group.Neighbours.{Updated, update_neighbours-Updated}
use rac_kun.Examples.{sha, ids, [], ◌∷◌}
use rac_kun.Group.Members.{
  IsGroup, OnRings, NoClash, add_peer-IsGroup, make_group-IsGroup, remove_peer-IsGroup,
  add_to_rings-OnRings, add_group_to_rings-IsGroup,
}
use rac_kun.Peer.{PeerRef}
use rac_kun.Group
use rac_kun.Group.{Group, make_group, update_neighbours}

abbrev lone : Group
lone = Group.add_peer sha ids 3 (make_group [])

abbrev pair : Group
pair = Group.add_peer sha ids 7 lone

lone-IsGroup : IsGroup sha ids lone
lone-IsGroup = Group.Members.add_peer-IsGroup sha ids 3 (make_group-IsGroup sha ids [])

pair-IsGroup : IsGroup sha ids pair
pair-IsGroup = Group.Members.add_peer-IsGroup sha ids 7 lone-IsGroup

add_peer-IsGroup_example : IsGroup sha ids (Group.add_peer sha ids 5 pair)
add_peer-IsGroup_example = add_peer-IsGroup sha ids 5 pair-IsGroup

update_neighbours-Updated_example : Updated sha ids 3 pair (update_neighbours sha ids 3 pair)
update_neighbours-Updated_example = update_neighbours-Updated sha ids 3 pair

-- The keys of different peers differ in their first byte.
keys_differ :
    (p q : PeerRef) (rs : List Ring)
    → All (λ r. ids p ≢ ids q → key sha ids r p ≢ key sha ids r q) rs
unfolding create_key make_hash
keys_differ p q [] = tt
keys_differ p q (r ∷ rs) = (λ h e. h (cc e), keys_differ p q rs)

pair-NoClash : NoClash sha ids 3 pair
unfolding Group.add_peer Group.add_to_rings make_group insert lt_bytes
pair-NoClash = (keys_differ 3 3 pair.rings, (keys_differ 3 7 pair.rings, tt))

remove_peer-IsGroup_example : IsGroup sha ids (Group.remove_peer sha ids 3 pair).0
remove_peer-IsGroup_example = remove_peer-IsGroup sha ids 3 pair-IsGroup pair-NoClash
