-- ===== src/Network/Disconnect/Ends.antt =====
-- How `handle_disconnect` ends: the search for a lost peer's group, and a peer under an unknown id.
use rac_kun.OrdMap.Laws.{position_missing}
use rac_kun.Text.{bytes_less}
use rac_kun.Group.Neighbours.{update_neighbours-Updated, all_rings, no_ring}
use rac_kun.Network.Disconnect.{
  search_group, remove_from, reset_if_alone, handle_disconnect, length, not, position,
}
use rac_kun.Network.Join.{update_group}
use rac_kun.Group
use rac_kun.Group.{update_neighbours}
use rac_kun.Network.{Env, Network, PeerRef, GroupRef, Bytes, ℕ, OrdMap, id_of, on_group, none}
use rac_kun.Exec.{◌>>=◌, results, modify, gets, pure}
use rac_kun.OrdMap.{find}
use rac_kun.Outcome.{ok}
use rac_kun.Prelude.{
  ◌≡◌, refl, some, suc, ◌∷◌, true, Bool-cases, ◌==◌, ◌&&◌, inl, inr, ==_iff, false,
}

-- `update_neighbours` returns.
updated_returns :
    (sha1 : Bytes → Bytes) (get_id : PeerRef → Bytes) (p : PeerRef) (v : Group.Group)
    → (w : Group.Group) × (update_neighbours sha1 get_id p v ≡ ok w)
updated_returns sha1 get_id p v = elim (update_neighbours-Updated sha1 get_id p v) [
  | all_rings preds succs h gp gs e ↦ (_, e)
  | no_ring h e ↦ (_, e)
]

remove_present :
    (sha1 : Bytes → Bytes) (get_id : PeerRef → Bytes) (p q : PeerRef) (v : Group.Group)
    → find (get_id p) v.peers ≡ some q
    → (Group.remove_peer sha1 get_id p v).1 ≡ true
unfolding Group.remove_peer
remove_present sha1 get_id p q v h = rw (h, Group.remove_peer) refl

module _ (env : Env) where
  update_group_returns : (g : GroupRef) (n : Network) → (update_group env g n).0 ≡ ok tt
  unfolding update_group on_group results ◌>>=◌ modify
  update_group_returns g n =
      let (w, e) = updated_returns env.sha1 (id_of n) n.local_peer (n.group_store g) in rw e refl

  -- If the first group in the order of the ids holds the peer, the search for the peer's group returns,
  -- with at least one round of fuel.
  pub search_group_ends :
      (fuel : ℕ) (p q : PeerRef) (id : Bytes) (g : GroupRef) (m : OrdMap Bytes GroupRef)
      (n : Network)
      → find (id_of n p) (n.group_store g).peers ≡ some q
      → (search_group env (suc fuel) p ((id, g) ∷ m) n).0 ≡ ok tt
  unfolding search_group ◌>>=◌ remove_from gets modify pure
  search_group_ends fuel p q id g m n h =
      rw (remove_present env.sha1 (id_of n) p q (n.group_store g) h) (update_group_returns g _)

  -- What a lone node forgets is neither a peer nor in the store of groups.
  reset_keeps :
      (n : Network)
      → ((reset_if_alone env n).1.peers ≡ n.peers)
        × ((reset_if_alone env n).1.group_store ≡ n.group_store)
  unfolding reset_if_alone
  reset_keeps n = elim (Bool-cases (length n.peers == 0 && length n.new_peers == 0)) [
    | inl e ↦ rw e (refl, refl)
    | inr e ↦ rw e (refl, refl)
  ]

  -- A peer whose id is not among the peers changes neither them nor the groups.
  pub unknown_disconnect :
      (fuel : ℕ) (p : PeerRef) (n : Network)
      → find (id_of n p) n.peers ≡ none
      → let after = (handle_disconnect env fuel p n).1 in
        (after.peers ≡ n.peers) × (after.group_store ≡ n.group_store)
  unfolding handle_disconnect ◌>>=◌ gets modify
  unknown_disconnect fuel p n h =
      let e : not (position (id_of n p) n.peers == length n.peers) ≡ false =
        rw
          (
            position_missing (id_of n p) n.peers h,
            (==_iff (length n.peers) (length n.peers)).1 refl,
          )
          refl in
      rw e (reset_keeps _)
