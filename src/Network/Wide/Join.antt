-- ===== src/Network/Wide/Join.antt =====
-- The JOIN procedure keeps the widths.
use rac_kun.Text.{bytes_less}
use rac_kun.OrdMap.{erase}
use rac_kun.Message.{Body}
use rac_kun.Message.Readable.{IsFull}
use rac_kun.Exec.Follows.{Follows-bind, pointee_at, modify_at, results_at}
use rac_kun.Prelude.{◌==◌, ◌∷◌, arith, false, refl, none}
use rac_kun.Network.Send.{local_group_id, send}
use rac_kun.Exec.{◌>>=◌, gets, pointee, ◌>>◌, option_case, modify, pure, continue}
use rac_kun.Peer.{make_peer, connected, update}
use rac_kun.Network.Wide.Methods.{
  Digests, widens_rules, group_add_peer-Widens, update_group-Widens, send-Widens, marker_full,
  broadcast-Widens, local_group_id-Widens,
}
use rac_kun.Network.{
  Env, PeerRef, Bytes, ◌>>=◌, ℕ, GroupRef, Bool, OrdMap, Network, [], Method, true, id_of, Store,
  write_peer, Option, ok, Result, Endpoint, fault,
}
use rac_kun.Network.Wide.{
  Widens-IsPreorder, Follows, Widens, Bool-cases, is_known, Named, ◌≡◌, inl, inr, set_state,
  widens_same, some, widens_state, subst, Wide,
}
use rac_kun.Network.Join
use rac_kun.Network.Join.{
  allocate, add_new_peer, acknowledge_join, complete_join, answer_join_request, connect_peer,
  check_for_new_peers, join_ack_message, first_known, join_notif_message,
}

pub allocate-Widens : (e : Endpoint) → Follows Widens (allocate e)
unfolding allocate update make_peer
allocate-Widens e = record {
  at = λ n w. record {
    fresh = omega (arith, w.fresh);
    own = rw (other n w) w.own;
    named = λ q. elim (Bool-cases (n.next_peer == q)) [
      | inl b ↦ rw b (λ h. cc)
      | inr b ↦ rw b (w.named q)
    ];
    housed = w.housed;
    readable = w.readable;
  };
}
  where
    other : (n : Network) → Wide n → (n.next_peer == n.local_peer) ≡ false
    other n w = ground (arith, w.fresh)

pub add_new_peer-Widens : (p : PeerRef) → Follows Widens (add_new_peer p)
unfolding add_new_peer
add_new_peer-Widens p = search widens_rules depth 8

module _ (env : Env) (digests : Digests env) where
  pub connect_peer-Widens : (ip port : Bytes) → Follows Widens (connect_peer env ip port)
  unfolding connect_peer
  connect_peer-Widens ip port = search (widens_rules, allocate-Widens) depth 12

  -- The request of the local peer.
  ask-Widens :
      (p : PeerRef)
      → Follows Widens (do
        request ← gets (λ (n : Network). record {
          stamp = [];
          body = Body.join (id_of n n.local_peer) (n.store n.local_peer).pub_id_key env.listen_port;
        })
        send env request p)
  unfolding ◌>>=◌ gets
  ask-Widens p = record {
    at = λ n w.
        (send-Widens env
            (record {
              stamp = [];
              body =
                  Body.join (id_of n n.local_peer) (n.store n.local_peer).pub_id_key
                    env.listen_port;
            })
            p digests w.own).at
          n w;
  }

  pub join-Widens : (ip port : Bytes) → Follows Widens (Join.join env ip port)
  unfolding Join.join
  join-Widens ip port =
      search (widens_rules, connect_peer-Widens, add_new_peer-Widens, ask-Widens) depth 16

  -- The local group's id is the one that is held, where there is a group.
  local_group_id_at :
      (k : Bytes → Method Unit) (n : Network)
      → ((l : GroupRef) → n.local_group ≡ some l → Widens n (k (n.group_store l).id n).1)
      → Widens n ((local_group_id env >>= k) n).1
  unfolding local_group_id ◌>>=◌ gets pointee
  local_group_id_at k n h = at_case n.local_group h
    where
      at_case :
          (x : Option GroupRef)
          → ((l : GroupRef) → x ≡ some l → Widens n (k (n.group_store l).id n).1)
          → let r = elim x as (λ _. Result GroupRef × Network) [
            | none ↦ (fault, n)
            | some l ↦ (ok l, n)
          ] in
            let c = continue r.0 (λ l. gets (λ (s : Network). (s.group_store l).id)) r.1 in
            Widens n (continue c.0 k c.1).1
      at_case none h = λ w. w
      at_case (some l) h = h l refl

  -- The acknowledgement names the local group and the local peer.
  reply-Widens :
      (p : PeerRef) (rest : Method Unit)
      → Follows Widens rest
      → Follows Widens (do
        id ← local_group_id env
        ack ← gets (λ (n : Network). join_ack_message env n id)
        send env ack p
        rest)
  unfolding ◌>>=◌ gets join_ack_message
  reply-Widens p rest k = record {
    at = λ n w.
        local_group_id_at _ n
          (λ l e w'.
            let ack = join_ack_message env n (n.group_store l).id in
            let full : IsFull ack.body = (omega (arith, w.housed e), w.own.0, w.own.1) in
            (Follows-bind _ _ (send-Widens env ack p digests full) (λ _. k)).at n w')
          w;
  }

  pub acknowledge_join-Widens :
      (p : PeerRef) (g : GroupRef) → Follows Widens (acknowledge_join env p g)
  unfolding acknowledge_join
  acknowledge_join-Widens p g =
      search (widens_rules, group_add_peer-Widens, update_group-Widens, reply-Widens) depth 24

  -- The request of a peer with its id and its key is answered.
  pub answer_join_request-Widens :
      (p : PeerRef) (port : ℕ) (n : Network)
      → Named (n.store p)
      → Widens n (answer_join_request env p port n).1
  unfolding answer_join_request ◌>>=◌ modify gets join_notif_message
  answer_join_request-Widens p port n v w =
      let n1 = record n { join_token = false } in
      pointee_at Widens (λ (s : Network). s.local_group) _ n1
        (λ l e w'.
          let notif = join_notif_message env n1 p (n.group_store l).id port in
          let full : IsFull notif.body = (marker_full env _ _ digests, w.housed e, v.0, v.1) in
          (Follows-bind _ _ (broadcast-Widens env l notif digests full) (λ _.
              search (widens_rules, local_group_id-Widens, acknowledge_join-Widens) depth 20)).at
            n1 w')
        (widens_same refl refl refl refl refl refl w)

  first_known-known :
      (s : Store) (m : OrdMap Bytes (Option PeerRef × ℕ)) {p : PeerRef} {port : ℕ}
      → first_known env s m ≡ ok (some (p, port))
      → is_known (s p) ≡ true
  unfolding first_known
  first_known-known s [] h = absurd (cc h)
  first_known-known s ((addr, (none, port)) ∷ m) h = absurd (cc h)
  first_known-known s ((addr, (some q, port)) ∷ m) h = elim (Bool-cases (is_known (s q))) [
    | inl e ↦ subst (λ r. is_known (s r) ≡ true) (q_lem (rw e at h)) e
    | inr e ↦ first_known-known s m (rw e at h)
  ]
    where
      q_lem :
          {q p : PeerRef} {a b : ℕ}
          → ◌≡◌ {A = Result (Option (PeerRef × ℕ))} (ok (some (q, a))) (ok (some (p, b)))
          → q ≡ p
      q_lem h = cc h

  pub check_for_new_peers-Widens : Follows Widens (check_for_new_peers env)
  unfolding check_for_new_peers option_case modify
  check_for_new_peers-Widens = record {
    at =
        λ n. results_at Widens (λ (s : Network). first_known env s.store s.new_peers) _ n (found n);
  }
    where
      found :
          (n : Network) (x : Option (PeerRef × ℕ))
          → first_known env n.store n.new_peers ≡ ok x
          → Widens n
              (option_case x
                (modify (λ (s : Network). record s { join_token = true }))
                (λ entry. answer_join_request env entry.0 entry.1)
                n).1
      found n none e = widens_same refl refl refl refl refl refl
      found n (some (p, port)) e = λ w.
          answer_join_request-Widens p port n (w.named p (first_known-known n.store n.new_peers e))
            w

  -- What the timer's handler does once its peer is connected.
  abbrev finish : PeerRef → Method Unit
  finish p = do
    modify (λ (n : Network). record n { join_timers = erase (id_of n p) n.join_timers })
    check_for_new_peers env

  finish-Widens : (p : PeerRef) → Follows Widens (finish p)
  finish-Widens p = search (widens_rules, check_for_new_peers-Widens)

  -- The timer is of a peer that is known.
  pub complete_join-Widens :
      (b : Bool) (p : PeerRef) (n : Network)
      → is_known (n.store p) ≡ true
      → Widens n (complete_join env b p n).1
  unfolding complete_join pure
  complete_join-Widens true p n known w = w
  complete_join-Widens false p n known w =
      modify_at Widens (write_peer p (set_state connected)) (λ _. finish p) n
        (widens_state p connected n (w.named p known)) ((finish-Widens p).at _) w
