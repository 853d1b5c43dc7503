-- ===== src/Network/Place/Methods.antt =====
-- The methods of the JOIN procedure and of lost peers leave the node in its place.
use rac_kun.Network.Place.{
  Stays, Stays-IsPreorder, Stays-IsFrame, stays_rules, stays_same, Connects,
}
use rac_kun.Network.Disconnect.{reset_if_alone, handle_disconnect}
use rac_kun.Network.Join.{
  add_new_peer, check_for_new_peers, complete_join, connect_peer, answer_join_request,
}
use rac_kun.Network.Join
use rac_kun.Network.{Env, Network, PeerRef, Bytes, Bool, ℕ}
use rac_kun.Exec.Follows.{Follows}
use rac_kun.Peer.{set_state, new, connected, update}
use rac_kun.Prelude.{refl, Bool-cases, length, ◌==◌, ◌&&◌, inl, inr, ◌≡◌, ◌≢◌, ==_iff}
use mathlib.Core.Path.{subst}

pub add_new_peer-Stays : {q : PeerRef} (p : PeerRef) → Follows (Stays q) (add_new_peer p)
unfolding add_new_peer
add_new_peer-Stays p = search stays_rules depth 8

-- The local peer is NEW behind a write that makes it so.
renewed :
    (n : Network) → (update n.local_peer (set_state new) n.store n.local_peer).state ≢ connected
unfolding update set_state
renewed n c =
    let e : new ≡ connected =
      subst (Connects n (set_state new)) ((==_iff n.local_peer n.local_peer).1 refl) c in
    cc

module _ (env : Env) where
  pub connect_peer-Stays :
      {q : PeerRef} (ip port : Bytes) → Follows (Stays q) (connect_peer env ip port)
  unfolding connect_peer
  connect_peer-Stays ip port = search stays_rules depth 12

  pub join-Stays : {q : PeerRef} (ip port : Bytes) → Follows (Stays q) (Join.join env ip port)
  unfolding Join.join
  join-Stays ip port = search (stays_rules, connect_peer-Stays, add_new_peer-Stays) depth 16

  pub answer_join_request-Stays :
      {q : PeerRef} (p : PeerRef) (port : ℕ) → Follows (Stays q) (answer_join_request env p port)
  unfolding answer_join_request
  answer_join_request-Stays p port = search stays_rules depth 28

  pub check_for_new_peers-Stays : {q : PeerRef} → Follows (Stays q) (check_for_new_peers env)
  unfolding check_for_new_peers
  check_for_new_peers-Stays = search (stays_rules, answer_join_request-Stays) depth 10

  pub complete_join-Stays : (b : Bool) (p : PeerRef) → Follows (Stays p) (complete_join env b p)
  unfolding complete_join
  complete_join-Stays b p = search (stays_rules, check_for_new_peers-Stays) depth 10

  reset_if_alone-Stays : {q : PeerRef} → Follows (Stays q) (reset_if_alone env)
  unfolding reset_if_alone update set_state
  reset_if_alone-Stays = record {
    at = λ n. elim (Bool-cases (length n.peers == 0 && length n.new_peers == 0)) [
      | inl e ↦ rw e (record { same_local = refl; in_place = λ other i c. absurd (renewed n c) })
      | inr e ↦ rw e (stays_same refl refl refl)
    ];
  }

  pub handle_disconnect-Stays :
      {q : PeerRef} (fuel : ℕ) (p : PeerRef) → Follows (Stays q) (handle_disconnect env fuel p)
  unfolding handle_disconnect
  handle_disconnect-Stays fuel p = search (stays_rules, reset_if_alone-Stays) depth 12
