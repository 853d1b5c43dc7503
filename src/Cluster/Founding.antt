-- ===== src/Cluster/Founding.antt =====
-- How a node comes by the route of its own broadcasts.
use rac_kun.Network.Handlers.{learn_group}
use rac_kun.Network.Send.{local_group_id}
use rac_kun.Exec.{pure, option_case, pointee}
use rac_kun.Utils.{make_hash, itos}
use rac_kun.Peer.{update, set_state, connected, get_id}
use rac_kun.Cluster.Routing.{Routes}
use rac_kun.Cluster.Relays.{own_marker}
use rac_kun.Network.Handlers.{found_group}
use rac_kun.Network.{Network, Env, create_group, now}
use rac_kun.OrdMap.Laws.{same_refl}
use rac_kun.OrdMap.{find, insert}
use rac_kun.Group.{make_group, add_to_rings}
use rac_kun.Exec.{◌>>=◌, gets, modify}
use rac_kun.Text.{bytes_less, Bytes}
use rac_kun.Prelude.{◌≡◌, some, [], refl, ◌==◌, true, ==_iff, ◌++◌, none}

module _ (env : Env) (content : Bytes) where
  -- A node that has no group and no marker yet, and founds a group, has that group as its local one, and
  -- has the route of its own broadcasts.
  pub found_group-Routes :
      (n : Network)
      → n.groups ≡ []
      → n.channel_markers ≡ []
      → let n' = (found_group env n).1 in
        Routes (own_marker env content n.next_group n') n' × (n'.local_group ≡ some n.next_group)
  unfolding found_group ◌>>=◌ gets modify create_group now add_to_rings make_group find insert
  found_group-Routes n bare unmarked =
      let self : n.next_group == n.next_group ≡ true = (==_iff n.next_group n.next_group).1 refl in
      let store = update n.local_peer (set_state connected) n.store in
      let id = make_hash env.sha1 (get_id store n.local_peer ++ itos (env.time n.clock)) in
      (
        record {
          id = id;
          group = n.next_group;
          marked = rw (self, unmarked, same_refl) refl;
          grouped = rw (bare, same_refl) refl;
          remote = rw self tt;
        },
        refl,
      )

  -- A node that has no group and no marker yet, and learns its first group from a JOIN Acknowledgement,
  -- has that group as its local one, and has the route of its own broadcasts.
  pub learn_group-Routes :
      (id : Bytes) (n : Network)
      → n.groups ≡ []
      → n.channel_markers ≡ []
      → n.local_group ≡ none
      → let n' = (learn_group env id n).1 in
        Routes (own_marker env content n.next_group n') n' × (n'.local_group ≡ some n.next_group)
  unfolding learn_group local_group_id ◌>>=◌ gets modify pure option_case pointee create_group
      make_group find insert
  learn_group-Routes id n bare unmarked alone =
      let self : n.next_group == n.next_group ≡ true = (==_iff n.next_group n.next_group).1 refl in
      (
        record {
          id = id;
          group = n.next_group;
          marked = rw (alone, self, unmarked, same_refl) refl;
          grouped = rw (alone, bare, same_refl) refl;
          remote = rw (alone, self) tt;
        },
        rw alone refl,
      )
