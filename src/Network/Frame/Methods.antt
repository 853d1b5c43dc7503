-- ===== src/Network/Frame/Methods.antt =====
-- The methods of `Network` that leave the bookkeeping of the JOIN procedure alone: what sends, and what
-- changes groups and rings.
use rac_kun.Peer.{set_state, connected}
use rac_kun.Exec.{◌>>=◌, gets, modify, pure, option_case, pointee}
use rac_kun.Prelude.{◌∷◌, zero, [], Option-cases, refl, ◌≡◌}
use rac_kun.Network.Logs.{group_entry}
use rac_kun.Network.Disconnect.{remove_from, search_group, leave_groups}
use rac_kun.Network.Join.{acknowledge_join, group_add_peer, update_group}
use rac_kun.Network.Handlers.{
  own_place, join_channels, learn_group, notify_neighbours, add_to_channels, take_place, pass_on,
  found_group,
}
use rac_kun.Network.Send.{
  stamped, forward, send_ready, send, local_group_id, broadcast_data, send_all, broadcast,
}
use rac_kun.Network.Frame.{
  IsFrame, frame_rules, Follows-send_each, Follows-each_group, Kept-same, Kept-some, inl, inr,
  queue_of, some,
}
use rac_kun.Message.{Message}
use rac_kun.Exec.Follows.{IsPreorder, Follows, Follows-bind, Follows-if}
use rac_kun.Network.{
  Network, Env, ℕ, Bytes, Bool, GroupRef, PeerRef, OrdMap, suc, create_group, ◌>>=◌, now,
  write_peer,
}

-- A node that learns a group has a local group afterwards.
learn_group_keeps :
    (env : Env) (id : Bytes) (n : Network)
    → let n' = (learn_group env id n).1 in
      (l : GroupRef) × (n'.logs ≡ n.logs) × (queue_of n' ≡ queue_of n) × (n'.local_group ≡ some l)
unfolding learn_group create_group local_group_id ◌>>=◌ gets modify pure option_case pointee
learn_group_keeps env id n = elim (Option-cases n.local_group) [
  | inl e ↦ (n.next_group, rw e refl, rw e refl, rw e refl)
  | inr (l, e) ↦ (l, rw e refl, rw e refl, rw e refl)
]

module _ {R : Network → Network → Type 0} ⦃o : IsPreorder R⦄ ⦃k : IsFrame R⦄ (env : Env) where
  pub Follows-stamped : (m : Message) → Follows R (stamped env m)
  unfolding stamped
  Follows-stamped m = search frame_rules depth 8

  pub Follows-send : (m : Message) (p : PeerRef) → Follows R (send env m p)
  unfolding send
  Follows-send m p = search (frame_rules, Follows-stamped) depth 12

  pub Follows-forward : (g : GroupRef) (m : Message) → Follows R (forward env g m)
  unfolding forward
  Follows-forward g m = search (frame_rules, Follows-send_each) depth 12

  pub Follows-broadcast : (g : GroupRef) (m : Message) (b : Bool) → Follows R (broadcast env g m b)
  unfolding broadcast
  Follows-broadcast g m b = search (frame_rules, Follows-stamped, Follows-forward) depth 8

  pub Follows-local_group_id : Follows R (local_group_id env)
  unfolding local_group_id
  Follows-local_group_id = search frame_rules depth 8

  pub Follows-broadcast_data : (content : Bytes) → Follows R (broadcast_data env content)
  unfolding broadcast_data
  Follows-broadcast_data content =
      search (frame_rules, Follows-local_group_id, Follows-broadcast) depth 12

  pub Follows-send_all : (msg : Bytes) → Follows R (send_all env msg)
  unfolding send_all
  Follows-send_all msg = search (frame_rules, Follows-send_each) depth 12

  pub Follows-send_ready : (b : Bool) (p : PeerRef) → Follows R (send_ready env b p)
  unfolding send_ready
  Follows-send_ready b p = search (frame_rules, Follows-send, k.of_same, Kept-same) depth 8

  pub Follows-update_group : (g : GroupRef) → Follows R (update_group env g)
  unfolding update_group
  Follows-update_group g = search frame_rules

  pub Follows-group_add_peer : (p : PeerRef) (g : GroupRef) → Follows R (group_add_peer env p g)
  unfolding group_add_peer
  Follows-group_add_peer p g = search (frame_rules, k.of_same, Kept-same)

  pub Follows-acknowledge_join : (p : PeerRef) (g : GroupRef) → Follows R (acknowledge_join env p g)
  unfolding acknowledge_join
  Follows-acknowledge_join p g =
      search
        (
          frame_rules, k.of_same, Kept-same, Follows-group_add_peer, Follows-update_group,
          Follows-local_group_id, Follows-send,
        )
        depth 24

  pub Follows-remove_from : (p : PeerRef) (g : GroupRef) → Follows R (remove_from env p g)
  unfolding remove_from
  Follows-remove_from p g = search (frame_rules, k.of_same, Kept-same) depth 8

  pub Follows-search_group :
      (fuel : ℕ) (p : PeerRef) (m : OrdMap Bytes GroupRef) → Follows R (search_group env fuel p m)
  unfolding search_group
  Follows-search_group zero p m = search frame_rules
  Follows-search_group (suc fuel) p [] = search frame_rules
  Follows-search_group (suc fuel) p ((id, g) ∷ m) =
      Follows-bind _ _ (Follows-remove_from p g) λ found.
        Follows-if found _ _ (Follows-update_group g) (Follows-search_group fuel p ((id, g) ∷ m))

  pub Follows-leave_groups : (fuel : ℕ) (p : PeerRef) → Follows R (leave_groups env fuel p)
  unfolding leave_groups
  Follows-leave_groups fuel p =
      search
        (
          frame_rules, Follows-remove_from, Follows-each_group, Follows-search_group,
          Follows-update_group,
        )
        depth 12

  pub Follows-join_channels : (p : PeerRef) → Follows R (join_channels env p)
  unfolding join_channels
  Follows-join_channels p =
      search
        (
          frame_rules, k.of_same, Kept-same, Follows-each_group, Follows-local_group_id,
          Follows-update_group,
        )
        depth 16

  pub Follows-add_to_channels :
      (channel : Bool) (id : Bytes) → Follows R (add_to_channels env channel id)
  unfolding add_to_channels
  Follows-add_to_channels channel id = search (frame_rules, Follows-join_channels) depth 12

  pub Follows-learn_group : (id : Bytes) → Follows R (learn_group env id)
  Follows-learn_group id = record {
    at = λ n.
        let (l, logs, queue, has) = learn_group_keeps env id n in
        k.of_same logs queue (Kept-some has);
  }

  -- The founder of a group connects the local peer, and has the group.
  pub Follows-found_group :
      ((n : Network) → R n (write_peer n.local_peer (set_state connected) n))
      → Follows R (found_group env)
  unfolding found_group create_group ◌>>=◌ gets modify now
  Follows-found_group connects = record {
    at = λ n. o.trans _ _ _ (connects n) (k.of_same refl refl (Kept-some refl));
  }

  pub Follows-notify_neighbours : (g : GroupRef) → Follows R (notify_neighbours env g)
  unfolding notify_neighbours
  Follows-notify_neighbours g = search (frame_rules, Follows-stamped, Follows-send_each) depth 16

  pub Follows-take_place : (g : GroupRef) → Follows R (take_place env g)
  unfolding take_place
  Follows-take_place g = search (frame_rules, k.of_same, Kept-same, Follows-update_group) depth 8

  pub Follows-own_place : Follows R (own_place env)
  unfolding own_place
  Follows-own_place = search (frame_rules, Follows-take_place) depth 8

  pub Follows-pass_on : (m : Message) → Follows R (pass_on env m)
  unfolding pass_on group_entry
  Follows-pass_on m = search (frame_rules, Follows-broadcast) depth 16

pub ruleset method_rules = (
  frame_rules, Follows-send_each, Follows-each_group, Follows-stamped, Follows-send,
  Follows-broadcast, Follows-local_group_id, Follows-update_group, Follows-group_add_peer,
  Follows-acknowledge_join, Follows-remove_from, Follows-leave_groups, Follows-add_to_channels,
  Follows-learn_group, Follows-notify_neighbours, Follows-take_place, Follows-own_place,
  Follows-pass_on,
)
