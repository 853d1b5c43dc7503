-- ===== src/Network/Answered.antt =====
-- `answer_join_request` of src/Network.cpp at a node that is in a group: the whole of what it sends.
use rac_kun.Cluster.Routing.{Routes, forward-Routes}
use rac_kun.Network.Acknowledged.{
  acknowledge_join-sends, AtMostTimer, reply_message, local_group_id_returns,
}
use rac_kun.Network.Frame.Methods.{method_rules}
use rac_kun.Exec.Follows.{Follows}
use rac_kun.Network.Wide.Reception.{SameStore, SameStore-IsPreorder, SameStore-IsFrame}
use rac_kun.Network.Join.{
  answer_join_request, join_notif_message, acknowledge_join, start_timer, ready_time,
  join_ack_message,
}
use rac_kun.Network.Send.{broadcast, stamped, forward, local_group_id}
use rac_kun.Network.Send.Wire.{stamp_now, sends}
use rac_kun.Network.{
  Env, PeerRef, GroupRef, Network, ℕ, Bytes, Method, Event, List, MessageLog, id_of, now, sent,
  started, ready_timer, make_channel_marker, ok, suc,
}
use rac_kun.OrdMap.{find, insert, erase, same}
use rac_kun.OrdMap.Laws.{same_refl}
use rac_kun.Text.{bytes_less}
use rac_kun.Peer.{get_address}
use rac_kun.Message.{Message, serialize, make_stamp}
use rac_kun.Exec.{◌>>=◌, ◌>>◌, gets, modify, pure, pointee}
use rac_kun.Prelude.{◌≡◌, refl, sym, some, ◌∷◌, ◌++◌, false, true, ap, ◌∙◌, if◌then◌else◌}

module _ (env : Env) (p : PeerRef) (port : ℕ) (g : GroupRef) where
  -- The marker of the group's own ring.
  abbrev pub marker_of : Network → Bytes
  marker_of n = make_channel_marker env (n.group_store g).id (n.group_store g).id

  -- What the group is told of the peer.
  abbrev pub announcement : Network → Message
  announcement n = stamp_now env (join_notif_message env n p (n.group_store g).id port) n

  -- The node behind the broadcast, and with the peer off the list.
  abbrev announced : List MessageLog → Network → Network
  announced ls n = record n {
    join_token = false;
    clock = suc n.clock;
    logs = ls;
    events = sends (serialize (announcement n)) (n.group_store g).successors n.events;
    new_peers = erase (get_address (n.store p)) n.new_peers;
  }

  broadcast-announced :
      (n : Network) (r : Routes (marker_of n) n)
      → r.group ≡ g
      → let m = join_notif_message env n p (n.group_store g).id port in
        (ls : List MessageLog) × (broadcast env g m true n ≡ (
          ok tt,
          record n {
            clock = suc n.clock;
            logs = ls;
            events = sends (serialize (announcement n)) (n.group_store g).successors n.events;
          },
        ))
  unfolding broadcast stamped now ◌>>=◌ gets make_stamp join_notif_message
  broadcast-announced n r here =
      let n1 = record n { clock = suc n.clock } in
      let r1 : Routes (marker_of n) n1 = record {
        id = r.id;
        group = r.group;
        marked = r.marked;
        grouped = r.grouped;
        remote = r.remote;
      } in
      let (ls, done, _) = forward-Routes (announcement n) (marker_of n) refl env n1 r1 in
      (
        ls,
        ap (λ h. forward env h (announcement n) n1) (sym here)
            ∙ done
            ∙ ap
                (λ h. (
                  ok tt,
                  record n1 {
                    logs = ls;
                    events =
                        sends (serialize (announcement n)) (n.group_store h).successors n.events;
                  },
                ))
                here,
      )

  start_timer-SameStore : Follows SameStore (start_timer ready_timer p)
  unfolding start_timer
  start_timer-SameStore = record { at = λ n. refl }

  answer_join_request-SameStore : Follows SameStore (answer_join_request env p port)
  unfolding answer_join_request
  answer_join_request-SameStore = search (method_rules, start_timer-SameStore) depth 28

  -- The call of `acknowledge_join`, and the timer.
  abbrev let_in_group : Method Unit
  let_in_group = do acknowledge_join env p g; start_timer ready_timer p

  -- What `answer_join_request` does with the group.
  abbrev tell_group : GroupRef → Method Unit
  tell_group group = do
    group_id ← gets (λ n. (n.group_store group).id)
    notif ← gets (λ n. join_notif_message env n p group_id port)
    broadcast env group notif true
    modify (λ n. record n { new_peers = erase (get_address (n.store p)) n.new_peers })
    local_id ← local_group_id env
    acknowledge ← gets (λ n. same (n.group_store group).id local_id)
    if acknowledge then acknowledge_join env p group else pure tt
    start_timer ready_timer p

  with_group :
      (rest : GroupRef → Method Unit) (n : Network)
      → n.local_group ≡ some g
      → (pointee (λ (n : Network). n.local_group) >>= rest) n ≡ rest g n
  unfolding ◌>>=◌ pointee
  with_group rest n ours = rw ours refl

  -- What is left once the group has been told.
  abbrev finish : Method Unit
  finish = do
    modify (λ n. record n { new_peers = erase (get_address (n.store p)) n.new_peers })
    local_id ← local_group_id env
    acknowledge ← gets (λ n. same (n.group_store g).id local_id)
    if acknowledge then acknowledge_join env p g else pure tt
    start_timer ready_timer p

  finish-returns :
      (n : Network)
      → n.local_group ≡ some g
      → finish n
        ≡ let_in_group (record n { new_peers = erase (get_address (n.store p)) n.new_peers })
  unfolding ◌>>=◌ gets modify
  finish-returns n ours =
      let n1 = record n { new_peers = erase (get_address (n.store p)) n.new_peers } in
      rw (local_group_id_returns env g n1 ours, same_refl) refl

  told_group :
      (n : Network) (r : Routes (marker_of n) n)
      → n.local_group ≡ some g
      → r.group ≡ g
      → (ls : List MessageLog) × (tell_group g (record n { join_token = false })
          ≡ let_in_group (announced ls n))
  unfolding ◌>>=◌ gets modify make_stamp join_notif_message
  told_group n r ours here =
      let n1 = record n { join_token = false } in
      let r1 : Routes (marker_of n1) n1 = record {
        id = r.id;
        group = r.group;
        marked = r.marked;
        grouped = r.grouped;
        remote = r.remote;
      } in
      let (ls, told) = broadcast-announced n1 r1 here in (ls, rw told (finish-returns _ ours))

  answered :
      (n : Network) (r : Routes (marker_of n) n)
      → n.local_group ≡ some g
      → r.group ≡ g
      → (ls : List MessageLog) × (answer_join_request env p port n ≡ let_in_group (announced ls n))
  unfolding answer_join_request modify ◌>>=◌
  answered n r ours here =
      let (ls, told) = told_group n r ours here in
      (ls, with_group tell_group (record n { join_token = false }) ours ∙ told)

  -- The whole answer.
  pub answer_join_request-sends :
      (n : Network) (r : Routes (marker_of n) n)
      → n.local_group ≡ some g
      → r.group ≡ g
      → (n.store p).local ≡ false
      → let out = answer_join_request env p port n in
        let ack = reply_message env g (record n { clock = suc n.clock }) in
        (timers : List Event) × AtMostTimer p timers
        × (out.0 ≡ ok tt)
        × (out.1.events
            ≡ started ready_timer p ready_time
              ∷ (timers
                  ++ sent p (serialize ack)
                    ∷ sends (serialize (announcement n)) (n.group_store g).successors n.events))
        × (find (id_of n p) out.1.peers ≡ some p)
        × ((out.1.group_store g).peers ≡ insert (id_of n p) p (n.group_store g).peers)
        × (out.1.store ≡ n.store)
  unfolding ◌>>=◌ start_timer join_ack_message make_stamp join_notif_message
  answer_join_request-sends n r ours here remote =
      let (ls, done) = answered n r ours here in
      let n1 = announced ls n in
      let (timers, few, returns, events, peers, members) =
        acknowledge_join-sends env p g n1 ours remote in
      (
        timers,
        few,
        rw (done, returns) refl,
        rw (done, returns) (ap (λ es. started ready_timer p ready_time ∷ es) events),
        rw (done, returns) peers,
        rw (done, returns) members,
        answer_join_request-SameStore.at n,
      )
