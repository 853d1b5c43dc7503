-- ===== src/Network/Token/Reception.antt =====
-- Every message and every lost connection, and the entries of `new_peers` beside a free token.
use rac_kun.Network.Frame.Methods.{Follows-found_group}
use rac_kun.Network.Pending.{write, NoneWaits, drop_at, write_drop-NoneWaits}
use rac_kun.Prelude.{true, refl, length, ◌==◌, ◌&&◌, ==_iff}
use rac_kun.Exec.Follows.{Follows-bind}
use rac_kun.Message.{Body, join_notif, join_ack, payload, ready, ready_notif}
use rac_kun.Network.Disconnect.{reset_if_alone, handle_disconnect}
use rac_kun.Text.{bytes_less}
use rac_kun.Network.Token.Methods.{
  IsTaken-IsCalm, answer_join_request-IsTaken, Unless-intro, check_for_new_peers-IsCalm,
  handle_join_notif-Careful,
}
use rac_kun.Peer.{update, set_state, init, joining, connected, new}
use rac_kun.Network.Join.{answer_join_request, check_for_new_peers}
use rac_kun.OrdMap.{assign, find}
use rac_kun.Network.Token.Sound.{
  Sound, Calms, set_port-IsFiled, Restores, Sound-bind, sound_rules, Sound-Restores,
  Restores-modify, introduce-IsFiled, Restores-log_message, connect-IsFiled, Sound-careful,
  Sound-try_catch, Sound-option_case,
}
use rac_kun.Network.{
  Env, PeerRef, ℕ, Method, Bytes, Network, if◌then◌else◌, Bool, GroupRef, write_peer, Peer,
}
use rac_kun.Exec.{◌>>=◌, modify, gets}
use rac_kun.Network.Token.{
  Careful-IsPreorder, Careful-IsFrame, Follows, Message, Careful, careful_rules, IsFiled,
  get_address, queue_of, ◌≡◌, false, Bool-cases, inl, inr, init, forget, local_state-Careful,
  careful_same, introduced-KeepsAddress, drop_at-IsFiled, subst, sym,
}
use rac_kun.Network.Handlers.{
  success, eof, other, handle_join, found_group, set_port, process, receive, handle_join_ack,
  ready_in_group, handle_incoming_message, handle_ready_notif, handle_ready, ReadError, receive_new,
}

module _ (env : Env) where
  found_group-Careful : Follows Careful (found_group env)
  unfolding modify
  found_group-Careful = Follows-found_group env (λ n. (local_state-Careful connected).at n)

  -- A JOIN request is answered if the token is free, and else it waits for the token.
  wait-Restores :
      (p : PeerRef) (port : ℕ) (wait : Method Unit)
      → ((n : Network) → IsFiled (queue_of n) → n.join_token ≡ false → Calms (wait n))
      → Restores (
          gets (λ (n : Network). n.join_token) >>= λ token.
          if token then answer_join_request env p port else wait)
  unfolding ◌>>=◌
  wait-Restores p port wait h = record { at = λ n v. go n v n.join_token refl }
    where
      go :
          (n : Network)
          → IsFiled (queue_of n)
          → (token : Bool) → n.join_token ≡ token
          → Calms ((if token then answer_join_request env p port else wait) n)
      go n v true e =
          let out = answer_join_request env p port n in
          let calm = IsTaken-IsCalm out.1 (answer_join_request-IsTaken env p port n v) in
          (calm.0, Unless-intro out.0 calm.1)
      go n v false e = h n v e

  handle_join-Sound :
      (m : Message) (id pub_k : Bytes) (port : ℕ) (p : PeerRef)
      → Sound (handle_join env m id pub_k port p)
  unfolding handle_join modify assign
  handle_join-Sound m id pub_k port p =
      let queued = λ (n : Network).
        let addr = get_address (n.store p) in
        record n { new_peers = assign addr (set_port port (find addr n.new_peers)) n.new_peers } in
      let answered = wait-Restores p port (modify queued) λ n v e.
        (set_port-IsFiled (get_address (n.store p)) port (queue_of n) v, λ t. absurd (cc (t, e))) in
      Sound-bind (search (sound_rules, careful_rules)) λ connected_now.
        Sound-bind (search (sound_rules, careful_rules, found_group-Careful)) λ _. Sound-Restores (
          Restores-modify _ (introduce-IsFiled p joining id pub_k)
            (Restores-log_message m p answered))

  -- A peer that is in leaves the pending peers.
  settle_peer-Careful :
      (p : PeerRef) (id key : Bytes) {rest : Method Unit}
      → Follows Careful rest
      → Follows Careful (
          modify (write_peer p (λ x. set_state connected (init id key x))) >>= λ _.
          modify (forget p) >>= λ _. rest)
  unfolding ◌>>=◌ update modify
  settle_peer-Careful p id key {rest} c = record {
    at = λ n.
        let f = λ (x : Peer). set_state connected (init id key x) in
        let n2 = forget p (write_peer p f n) in
        let own : get_address (update p f n.store p) ≡ get_address (n.store p) =
          rw ((==_iff p p).1 refl) (introduced-KeepsAddress connected id key (n.store p)) in
        let settled : Careful n n2 = record {
          filed = λ v.
              drop_at-IsFiled (get_address (update p f n.store p)) (write p f (queue_of n))
                (introduce-IsFiled p connected id key n v);
          waits = λ v w.
              subst (λ a. NoneWaits (drop_at a (write p f (queue_of n)))) (sym own)
                (write_drop-NoneWaits p f (queue_of n) v w);
        } in
        Careful-IsPreorder.trans n n2 (rest n2).1 settled (c.at n2);
  }

  handle_join_ack-Careful :
      (m : Message) (group_id peer_id pub_k : Bytes) (p : PeerRef)
      → Follows Careful (handle_join_ack env m group_id peer_id pub_k p)
  unfolding handle_join_ack
  handle_join_ack-Careful m group_id peer_id pub_k p = Follows-bind _ _ (search careful_rules) λ it.
      Follows-bind _ _ (search careful_rules)
        λ his_group. settle_peer-Careful p peer_id pub_k (search careful_rules depth 16)

  ready_in_group-Careful : (g : GroupRef) → Follows Careful (ready_in_group env g)
  unfolding ready_in_group
  ready_in_group-Careful g = search careful_rules depth 20

  handle_ready-Careful : Follows Careful (handle_ready env)
  unfolding handle_ready
  handle_ready-Careful = search (careful_rules, ready_in_group-Careful) depth 8

  check_for_new_peers-Restores : Restores (check_for_new_peers env)
  check_for_new_peers-Restores = record { at = check_for_new_peers-IsCalm env }

  handle_ready_notif-Sound : (p : PeerRef) → Sound (handle_ready_notif env p)
  unfolding handle_ready_notif
  handle_ready_notif-Sound p =
      Sound-Restores (Restores-modify _ (connect-IsFiled p) check_for_new_peers-Restores)

  process-Sound : (m : Message) (b : Body) (p : PeerRef) → Sound (process env m b p)
  unfolding process
  process-Sound m (Body.join id pub_k port) p = handle_join-Sound m id pub_k port p
  process-Sound m (join_notif marker channel group_id peer_id pub_k ip port) p =
      Sound-careful (handle_join_notif-Careful env channel group_id peer_id pub_k ip port)
  process-Sound m (join_ack group_id peer_id pub_k) p =
      Sound-careful (handle_join_ack-Careful m group_id peer_id pub_k p)
  process-Sound m ready p = Sound-careful handle_ready-Careful
  process-Sound m ready_notif p = handle_ready_notif-Sound p
  process-Sound m (payload marker content) p = Sound-careful (search careful_rules)

  receive_new-Sound : (m : Message) (p : PeerRef) → Sound (receive_new env m p)
  unfolding receive_new
  receive_new-Sound m p = search (sound_rules, careful_rules, process-Sound) depth 12

  receive-Sound : (m : Message) (p : PeerRef) → Sound (receive env m p)
  unfolding receive
  receive-Sound m p =
      Sound-bind (Sound-careful (search careful_rules)) λ it.
        Sound-option_case it (receive_new-Sound m p) (λ l. Sound-careful (search careful_rules))

  reset_if_alone-Careful : Follows Careful (reset_if_alone env)
  unfolding reset_if_alone modify
  reset_if_alone-Careful = record {
    at = λ n. elim (Bool-cases (length n.peers == 0 && length n.new_peers == 0)) [
      | inl e ↦
          let local = (local_state-Careful new).at n in
          rw e (record { filed = local.filed; waits = local.waits })
      | inr e ↦ rw e (careful_same refl)
    ];
  }

  handle_disconnect-Careful :
      (fuel : ℕ) (p : PeerRef) → Follows Careful (handle_disconnect env fuel p)
  unfolding handle_disconnect
  handle_disconnect-Careful fuel p = search (careful_rules, reset_if_alone-Careful) depth 12

  -- Whatever a peer sends, the handler keeps the pending peers filed, and unless it faults, it leaves
  -- nobody waiting beside a free token.
  pub handle_incoming_message-Sound :
      (fuel : ℕ) (error : ReadError) (received : Bytes) (p : PeerRef)
      → Sound (handle_incoming_message env fuel error received p)
  unfolding handle_incoming_message
  handle_incoming_message-Sound fuel eof received p =
      Sound-careful (handle_disconnect-Careful fuel p)
  handle_incoming_message-Sound fuel other received p = Sound-careful (search careful_rules)
  handle_incoming_message-Sound fuel success received p =
      Sound-bind (Sound-careful (search careful_rules)) λ _.
        Sound-try_catch (Sound-bind (Sound-careful (search careful_rules)) (λ m. receive-Sound m p))
