-- ===== src/Network/Trail.antt =====
-- What most methods keep, whatever they do to the bookkeeping of the JOIN procedure: a relation between
-- states that sees the log, the local group and the groups only.
pub mod Reception
use rac_kun.Network.Frame.{IsFrame, Kept, Kept-same, Kept-some}
use rac_kun.Network.Logs.{modify_log}
use rac_kun.Network.Frame.Methods.{method_rules, Follows-found_group}
use rac_kun.Exec.Follows.{Follows, IsPreorder}
use rac_kun.Network.Disconnect.{reset_if_alone, handle_disconnect}
use rac_kun.Network.{Network, Env, PeerRef, Endpoint, Bytes, Bool, ℕ}
use rac_kun.Network.Join.{
  allocate, add_new_peer, check_for_new_peers, complete_join, connect_peer, answer_join_request,
}
use rac_kun.Network.Join
use rac_kun.Prelude.{refl, ◌≡◌}

pub record IsTrail (R : Network → Network → Type 0) : Type 0 where
  pub of_kept : {n n' : Network} → n'.logs ≡ n.logs → Kept n n' → R n n'
  pub of_count :
      (stamp id : Bytes) (n : Network) → R n (record n { logs = modify_log stamp id n.logs })
  pub of_reset : (env : Env) → Follows R (reset_if_alone env)

pub ruleset trail_rules = (method_rules, Kept-same)

module _ {R : Network → Network → Type 0} ⦃o : IsPreorder R⦄ ⦃k : IsFrame R⦄ ⦃t : IsTrail R⦄ where
  pub Follows-allocate : (e : Endpoint) → Follows R (allocate e)
  unfolding allocate
  Follows-allocate e = record { at = λ n. t.of_kept refl (Kept-same refl refl) }

  pub Follows-add_new_peer : (p : PeerRef) → Follows R (add_new_peer p)
  unfolding add_new_peer
  Follows-add_new_peer p = search (trail_rules, t.of_kept) depth 8

module _ {R : Network → Network → Type 0} ⦃o : IsPreorder R⦄ ⦃k : IsFrame R⦄ ⦃t : IsTrail R⦄
    (env : Env) where
  pub Follows-connect_peer : (ip port : Bytes) → Follows R (connect_peer env ip port)
  unfolding connect_peer
  Follows-connect_peer ip port = search (trail_rules, t.of_kept, Follows-allocate) depth 12

  pub Follows-join : (ip port : Bytes) → Follows R (Join.join env ip port)
  unfolding Join.join
  Follows-join ip port =
      search (trail_rules, t.of_kept, Follows-connect_peer, Follows-add_new_peer) depth 16

  pub Follows-answer_join_request :
      (p : PeerRef) (port : ℕ) → Follows R (answer_join_request env p port)
  unfolding answer_join_request
  Follows-answer_join_request p port = search (trail_rules, t.of_kept) depth 28

  pub Follows-check_for_new_peers : Follows R (check_for_new_peers env)
  unfolding check_for_new_peers
  Follows-check_for_new_peers =
      search (trail_rules, t.of_kept, Follows-answer_join_request) depth 10

  pub Follows-complete_join : (b : Bool) (p : PeerRef) → Follows R (complete_join env b p)
  unfolding complete_join
  Follows-complete_join b p = search (trail_rules, t.of_kept, Follows-check_for_new_peers) depth 10

  pub Follows-handle_disconnect :
      (fuel : ℕ) (p : PeerRef) → Follows R (handle_disconnect env fuel p)
  unfolding handle_disconnect
  Follows-handle_disconnect fuel p = search (trail_rules, t.of_kept, t.of_reset) depth 12
