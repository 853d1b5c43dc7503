-- ===== src/Network/Wide/Incoming.antt =====
-- What a peer sends keeps the widths, if it is proper: a JOIN Acknowledgement names a group by its full
-- id, and a READY Notification comes from a peer that is known.
use rac_kun.Network.Wide.Disconnect.{handle_disconnect-Widens}
use rac_kun.Exec.{modify, gets, option_case, pure, ◌>>=◌, ◌>>◌}
use rac_kun.Peer.{set_state}
use rac_kun.Network.Logs.{group_entry}
use rac_kun.Network.Frame.Methods.{Follows-pass_on}
use rac_kun.Network.Join.{check_for_new_peers}
use rac_kun.Message.Parsed.{parse_message_again, parse_message-IsBody}
use rac_kun.Peer.{connected}
use rac_kun.Network.Frame.{Follows-listen}
use rac_kun.Exec.Follows.{bind_at, modify_at, Follows, try_catch_at, lift_at, follows_rules}
use rac_kun.Network.Logs.{find_log, stamp_of, log_message}
use rac_kun.Prelude.{Option-cases, if◌then◌else◌, refl}
use rac_kun.Network.Wide.Join.{check_for_new_peers-Widens}
use rac_kun.Message.RoundTrip.{IsBody}
use rac_kun.Network.Send.{broadcast}
use rac_kun.Exec.{try_catch, lift}
use rac_kun.Network.Handlers.{
  receive_new, process, handle_incoming_message, pass_on, receive, handle_ready_notif, ReadError,
  eof, other, success,
}
use rac_kun.Network.Wide.Methods.{Digests, listen-Widens, widens_rules, forward-Widens}
use rac_kun.Network.{
  Env, Peer, ℕ, PeerRef, Bytes, true, Network, ok, Store, listen, Bool, Method, id_of, write_peer,
}
use rac_kun.Message.{
  Body, join_ack, group_id_length, Message, ready_notif, parse_message, serialize, join_notif,
  payload, ready,
}
use rac_kun.Network.Wide.{
  Widens-IsPreorder, length, ◌≡◌, is_known, Parses, Widens, subst, inl, sym, inr, widens_count,
  widens_state, widens_same,
}
use rac_kun.Network.Wide.Reception.{
  SameStore, SameStore-IsPreorder, SameStore-IsFrame, handle_join-Widens, handle_join_notif-Widens,
  handle_join_ack-Widens, handle_ready-Widens, log_message-SameStore,
}

-- What a message of a peer is trusted to be.
abbrev pub Proper : Body → Peer → Type 0
Proper (join_ack group_id peer_id pub_k) p = length group_id ≡ group_id_length
Proper ready_notif p = is_known p ≡ true
Proper _ p = Unit

module _ (env : Env) (digests : Digests env) where
  process-Widens :
      (m : Message) (b : Body) (p : PeerRef) (n : Network)
      → Parses (serialize m)
      → IsBody b
      → Proper b (n.store p)
      → Widens n (process env m b p n).1
  unfolding process handle_ready_notif modify
  process-Widens m (Body.join id pub_k port) p n r v proper =
      (handle_join-Widens env digests m id pub_k port p r v.0 v.1).at n
  process-Widens m (join_notif marker channel group_id peer_id pub_k ip port) p n r v proper =
      (handle_join_notif-Widens env digests channel group_id peer_id pub_k ip port v.2 v.3).at n
  process-Widens m (join_ack group_id peer_id pub_k) p n r v proper =
      (handle_join_ack-Widens env digests m group_id peer_id pub_k p r proper v.1 v.2).at n
  process-Widens m ready p n r v proper = (handle_ready-Widens env digests).at n
  process-Widens m ready_notif p n r v proper = λ w.
      modify_at Widens (write_peer p (set_state connected)) (λ _. check_for_new_peers env) n
        (widens_state p connected n (w.named p proper))
        ((check_for_new_peers-Widens env digests).at _) w
  process-Widens m (payload marker content) p n r v proper =
      widens_same refl refl refl refl refl refl

  pass_on-Widens : (m : Message) → Parses (serialize m) → Follows Widens (pass_on env m)
  unfolding pass_on group_entry broadcast
  pass_on-Widens m r = search (widens_rules, forward-Widens) depth 16

  -- A message is logged and passed on, and its sender is still what it was.
  receive_new-Widens :
      (m : Message) (p : PeerRef) (n : Network)
      → Parses (serialize m)
      → IsBody m.body
      → Proper m.body (n.store p)
      → Widens n (receive_new env m p n).1
  unfolding receive_new ◌>>=◌ gets
  receive_new-Widens m p n r v proper =
      bind_at Widens Trusted (log_if (is_known (n.store p)))
        (λ _. pass_on env m >> process env m m.body p) n
        ((log_if-Widens (is_known (n.store p))).at n)
        (subst (λ (x : Store). Proper m.body (x p))
          (sym ((log_if-SameStore (is_known (n.store p))).at n)) proper)
        (λ a s t.
          bind_at Widens Trusted (pass_on env m) (λ _. process env m m.body p) s
            ((pass_on-Widens m r).at s)
            (subst (λ (x : Store). Proper m.body (x p))
              (sym ((Follows-pass_on {R = SameStore} env m).at s)) t)
            (λ b s' t'. process-Widens m m.body p s' r v t'))
    where
      Trusted : Network → Type 0
      Trusted s = Proper m.body (s.store p)

      log_if : Bool → Method Unit
      log_if b = if b then log_message m p else pure tt

      log_if-Widens : (b : Bool) → Follows Widens (log_if b)
      log_if-Widens b = search widens_rules

      log_if-SameStore : (b : Bool) → Follows SameStore (log_if b)
      log_if-SameStore b = search (follows_rules, log_message-SameStore)

  receive-Widens :
      (m : Message) (p : PeerRef) (n : Network)
      → Parses (serialize m)
      → IsBody m.body
      → Proper m.body (n.store p)
      → Widens n (receive env m p n).1
  unfolding receive ◌>>=◌ gets option_case modify
  receive-Widens m p n r v proper = elim (Option-cases (find_log m n.logs)) [
    | inl e ↦ rw e (receive_new-Widens m p n r v proper)
    | inr (l, e) ↦ rw e (widens_count (stamp_of (serialize m)) (id_of n p) n)
  ]

  pub handle_incoming_message-Widens :
      (fuel : ℕ) (error : ReadError) (received : Bytes) (p : PeerRef) (n : Network)
      → ((m : Message) → parse_message received ≡ ok m → Proper m.body (n.store p))
      → Widens n (handle_incoming_message env fuel error received p n).1
  unfolding handle_incoming_message pure
  handle_incoming_message-Widens fuel eof received p n proper =
      (handle_disconnect-Widens env digests fuel p).at n
  handle_incoming_message-Widens fuel other received p n proper = λ w. w
  handle_incoming_message-Widens fuel success received p n proper =
      bind_at Widens (λ (s : Network). s.store ≡ n.store) (listen p)
        (λ _. try_catch (do m ← lift (parse_message received); receive env m p)) n
        ((listen-Widens p).at n) ((Follows-listen {R = SameStore} p).at n)
        (λ a s same.
          try_catch_at Widens (do m ← lift (parse_message received); receive env m p) s
            (lift_at Widens (parse_message received) (λ m. receive env m p) s
              (λ m e.
                receive-Widens m p s (m, parse_message_again received m e)
                  (parse_message-IsBody received m e)
                  (subst (λ (x : Store). Proper m.body (x p)) (sym same) (proper m e)))))
