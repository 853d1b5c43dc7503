-- ===== src/Network/Wide/Reception.antt =====
-- The handlers of the messages that the other peers send keep the widths.
use rac_kun.Network.Wide.Founding.{found_group-Widens, learn_group-Widens}
use rac_kun.OrdMap.{assign, find}
use rac_kun.Exec.Follows.{Follows-bind, Follows-gets, modify_at, Follows-if, bind_at, Follows-pure}
use rac_kun.Network.Logs.{
  acknowledge, log_message, insert_log, new_control, marker_entry, group_entry,
}
use rac_kun.Exec.{modify, gets, ◌>>◌}
use rac_kun.Group.{add_to_rings}
use rac_kun.Peer.{set_state, init, update, joining, get_address}
use rac_kun.Text.{bytes_less}
use rac_kun.Network.Wide.{
  Widens-IsPreorder, follows_rules, Bool-cases, inl, inr, log_message-Widens, sym,
}
use rac_kun.Network.Join.{answer_join_request}
use rac_kun.Network.Wide.Join.{
  connect_peer-Widens, acknowledge_join-Widens, answer_join_request-Widens,
}
use rac_kun.Exec.{◌>>=◌}
use rac_kun.Network.Pending.{Queue}
use rac_kun.Prelude.{refl, if◌then◌else◌, false, arith}
use rac_kun.Network.Handlers.{
  join_channels, take_place, handle_ready, handle_join, handle_join_ack, handle_join_notif,
  notify_neighbours, accept_notif, add_to_channels, ready_in_group, own_place, set_port,
}
use rac_kun.Network.Wide.Methods.{
  Digests, stamped-Widens, widens_rules, update_group-Widens, Follows-each_Widens,
  local_group_id-Widens, group_add_peer-Widens,
}
use rac_kun.Network.{Env, Bool, GroupRef, ◌>>=◌, Bytes, PeerRef, ℕ, Method, true, write_peer, Store}
use rac_kun.Network.Frame.{IsFrame}
use rac_kun.Message.{Message, group_id_length, id_length, serialize, key_length}
use rac_kun.Network.Wide.{
  IsPreorder, Network, ap, ◌≡◌, ◌∙◌, length, Follows, Parses, Widens, Named, subst, widens_init,
}

-- What most methods leave alone.
abbrev pub SameStore : Network → Network → Type 0
SameStore n n' = n'.store ≡ n.store

instance pub SameStore-IsPreorder : IsPreorder SameStore
SameStore-IsPreorder = record { refl_at = λ n. refl; trans = λ n m k h j. j ∙ h }

acknowledge-SameStore : (m : Message) (p : PeerRef) → Follows SameStore (acknowledge m p)
unfolding acknowledge modify
acknowledge-SameStore m p = record {
  at = λ n. elim (Bool-cases (n.store p).local) [ inl e ↦ rw e refl | inr e ↦ rw e refl ];
}

pub log_message-SameStore : (m : Message) (p : PeerRef) → Follows SameStore (log_message m p)
unfolding log_message insert_log new_control marker_entry group_entry
log_message-SameStore m p = search (follows_rules, acknowledge-SameStore) depth 24

instance pub SameStore-IsFrame : IsFrame SameStore
SameStore-IsFrame = record {
  of_same = λ l e k. ap (λ (q : Queue). q.store) e;
  of_log = log_message-SameStore;
}

module _ (env : Env) (digests : Digests env) where
  join_channels-Widens : (p : PeerRef) → Follows Widens (join_channels env p)
  unfolding join_channels add_to_rings
  join_channels-Widens p =
      search (widens_rules, local_group_id-Widens, update_group-Widens, Follows-each_Widens) depth
        20

  answered_at :
      (b : Bool) (p : PeerRef) (port : ℕ) (rest : Method Unit) (n : Network)
      → Named (n.store p)
      → Follows Widens rest
      → Widens n ((if b then answer_join_request env p port else rest) n).1
  answered_at true p port rest n v k = answer_join_request-Widens env digests p port n v
  answered_at false p port rest n v k = k.at n

  -- The request that has to wait.
  abbrev keep_waiting : ℕ → PeerRef → Method Unit
  keep_waiting port p = modify (λ n.
      let addr = get_address (n.store p) in
      record n { new_peers = assign addr (set_port port (find addr n.new_peers)) n.new_peers })

  -- The request is answered if the token is free.
  abbrev decide : ℕ → PeerRef → Method Unit
  decide port p = do
    token ← gets (λ n. n.join_token)
    if token then answer_join_request env p port else keep_waiting port p

  -- What a node does with a peer that asks to join, once it has a group.
  abbrev introduced : Message → Bytes → Bytes → ℕ → PeerRef → Method Unit
  introduced m id pub_k port p = do
    modify (write_peer p (λ q. set_state joining (init id pub_k q)))
    log_message m p
    decide port p

  introduced-Widens :
      (m : Message) (id pub_k : Bytes) (port : ℕ) (p : PeerRef)
      → Parses (serialize m)
      → length id ≡ id_length
      → length pub_k ≡ key_length
      → Follows Widens (introduced m id pub_k port p)
  unfolding set_state init update gets ◌>>=◌
  introduced-Widens m id pub_k port p r i k = record {
    at = λ n.
        let n1 = write_peer p (λ q. set_state joining (init id pub_k q)) n in
        let named : Named (n1.store p) = ground (arith, i, k) in
        modify_at Widens (write_peer p (λ q. set_state joining (init id pub_k q)))
          (λ _. log_message m p >> decide port p) n (widens_init p id pub_k joining n i k)
          (bind_at Widens (λ s. Named (s.store p)) (log_message m p) (λ _. decide port p) n1
            ((log_message-Widens m p r).at n1)
            (subst (λ (s : Store). Named (s p)) (sym ((log_message-SameStore m p).at n1)) named)
            (λ a s v.
              answered_at s.join_token p port (keep_waiting port p) s v (search widens_rules)));
  }

  pub handle_join-Widens :
      (m : Message) (id pub_k : Bytes) (port : ℕ) (p : PeerRef)
      → Parses (serialize m)
      → length id ≡ id_length
      → length pub_k ≡ key_length
      → Follows Widens (handle_join env m id pub_k port p)
  unfolding handle_join
  handle_join-Widens m id pub_k port p r i k = Follows-bind _ _ (Follows-gets _) λ c.
      Follows-bind _ _ (Follows-if c _ _ (Follows-pure tt) (found_group-Widens env digests))
        (λ _. introduced-Widens m id pub_k port p r i k)

  accept_notif-Widens :
      (g : GroupRef) (peer_id pub_k ip : Bytes) (port : ℕ)
      → length peer_id ≡ id_length
      → length pub_k ≡ key_length
      → Follows Widens (accept_notif env g peer_id pub_k ip port)
  unfolding accept_notif
  accept_notif-Widens g peer_id pub_k ip port i k =
      search (widens_rules, connect_peer-Widens, widens_init, acknowledge_join-Widens) depth 20

  pub handle_join_notif-Widens :
      (channel : Bool) (group_id peer_id pub_k ip : Bytes) (port : ℕ)
      → length peer_id ≡ id_length
      → length pub_k ≡ key_length
      → Follows Widens (handle_join_notif env channel group_id peer_id pub_k ip port)
  unfolding handle_join_notif add_to_channels
  handle_join_notif-Widens channel group_id peer_id pub_k ip port i k =
      search (widens_rules, local_group_id-Widens, accept_notif-Widens, join_channels-Widens) depth
        20

  pub handle_join_ack-Widens :
      (m : Message) (group_id peer_id pub_k : Bytes) (p : PeerRef)
      → Parses (serialize m)
      → length group_id ≡ group_id_length
      → length peer_id ≡ id_length
      → length pub_k ≡ key_length
      → Follows Widens (handle_join_ack env m group_id peer_id pub_k p)
  unfolding handle_join_ack
  handle_join_ack-Widens m group_id peer_id pub_k p r g i k =
      search (widens_rules, learn_group-Widens, widens_init, group_add_peer-Widens) depth 24

  notify_neighbours-Widens : (g : GroupRef) → Follows Widens (notify_neighbours env g)
  unfolding notify_neighbours
  notify_neighbours-Widens g =
      stamped-Widens env _ _ digests tt (λ m' e r. search widens_rules depth 16)

  take_place-Widens : (g : GroupRef) → Follows Widens (take_place env g)
  unfolding take_place add_to_rings
  take_place-Widens g = search (widens_rules, update_group-Widens) depth 8

  pub handle_ready-Widens : Follows Widens (handle_ready env)
  unfolding handle_ready ready_in_group own_place
  handle_ready-Widens =
      search
        (
          widens_rules, take_place-Widens, Follows-each_Widens, local_group_id-Widens,
          notify_neighbours-Widens,
        )
        depth 24
