-- ===== src/Network/Acknowledged.antt =====
-- What a node does for a peer that it lets into its group.

use rac_kun.Utils.{make_hash}
use rac_kun.OrdMap.Laws.{find-assign, same_refl}
use rac_kun.Message.RoundTrip.{IsMessage}
use rac_kun.Text.{bytes_less}
use rac_kun.Group.{add_to_rings}
use rac_kun.Message.{make_stamp, msg_stamp_length, id_length, key_length, group_id_length}
use rac_kun.OrdMap.{find, insert, assign}
use rac_kun.Network.Send.Wire.{stamp_now}
use rac_kun.Group.Neighbours.{update_neighbours-Updated, all_rings, no_ring}
use rac_kun.Prelude.{
  ◌≡◌, false, Option-cases, inl, ◌∷◌, Bool-cases, refl, inr, ◌++◌, some, if◌then◌else◌, true,
  length, ◌≤◌, ==_iff, ap, ◌∙◌, ◌⊎◌,
}
use rac_kun.Message.{Message, bcast_marker, serialize}
use rac_kun.Group
use rac_kun.Group.{update_neighbours}
use rac_kun.Exec.{◌>>=◌, gets, option_case, modify, pure, pointee, results, ◌>>◌}
use rac_kun.Network.{
  on_group, now, peer_send, Env, GroupRef, PeerRef, Network, ok, none, write_group, List,
  MessageLog, id_of, suc, sent, Method, [], Bool, Event, join_timer, started, Bytes, PeerMap,
}
use rac_kun.Network.Join.{
  acknowledge_join, update_group, group_add_peer, join_ack_message, start_timer, file_peer,
  is_neighbour, join_complete_time,
}
use rac_kun.Network.Send.{send, stamped, local_group_id}
use rac_kun.Network.Logs.{
  log_message, insert_log, new_control, acknowledge, modify_log, stamp_of, find_log,
}

-- A message that is no broadcast is logged.
pub log_message_returns :
    (m : Message) (p : PeerRef) (n : Network)
    → bcast_marker m.body ≡ none
    → (logs : List MessageLog) × (log_message m p n ≡ (ok tt, record n { logs = logs }))
unfolding log_message insert_log new_control acknowledge ◌>>=◌ gets option_case modify pure
log_message_returns m p n plain =
    let logged = n.logs ++ record { message = serialize m; control = [] } ∷ [] in
    let count = modify_log (stamp_of (serialize m)) (id_of n p) in
    elim (Option-cases (find_log m n.logs)) [
      | inl e ↦ elim (Bool-cases (n.store p).local) [
        | inl own ↦ (logged, rw (e, plain, own) refl)
        | inr own ↦ (count logged, rw (e, plain, own) refl)
      ]
      | inr (l, e) ↦ elim (Bool-cases (n.store p).local) [
        | inl own ↦ (n.logs, rw (e, own) refl)
        | inr own ↦ (count n.logs, rw (e, own) refl)
      ]
    ]

written : (g : GroupRef) (v : Group.Group) (n : Network) → (write_group g v n).group_store g ≡ v
written g v n = rw ((==_iff g g).1 refl) refl

first : (id : Bytes) (p : PeerRef) (m : PeerMap) → find id (assign id p m) ≡ some p
first id p m = rw (find-assign id id p m, same_refl) refl

-- Nothing, or the start of the peer's join timer.
abbrev pub AtMostTimer : PeerRef → List Event → Type 0
AtMostTimer p timers = (timers ≡ []) ⊎ (timers ≡ started join_timer p join_complete_time ∷ [])

module _ (env : Env) where
  -- Only the neighbours change.
  update_group_returns :
      (g : GroupRef) (n : Network)
      → (v : Group.Group) × (update_group env g n ≡ (ok tt, write_group g v n))
        × (v.id ≡ (n.group_store g).id)
        × (v.peers ≡ (n.group_store g).peers)
  unfolding update_group on_group ◌>>=◌ results modify
  update_group_returns g n =
      elim (update_neighbours-Updated env.sha1 (id_of n) n.local_peer (n.group_store g)) [
        | all_rings ps ss h gp gs e ↦
            (record (n.group_store g) { predecessors = ps; successors = ss }, rw e refl, refl, refl)
        | no_ring h e ↦
            (record (n.group_store g) { predecessors = []; successors = [] }, rw e refl, refl, refl)
      ]

  -- A message that is no broadcast reaches the wire.
  send_returns :
      (m : Message) (p : PeerRef) (n : Network)
      → bcast_marker m.body ≡ none
      → (n.store p).local ≡ false
      → let m' = stamp_now env m n in
        (logs : List MessageLog) × (send env m p n ≡ (
          ok tt,
          record n { clock = suc n.clock; events = sent p (serialize m') ∷ n.events; logs = logs },
        ))
  unfolding send stamped now peer_send ◌>>=◌ gets make_stamp
  send_returns m p n plain remote =
      let m' = stamp_now env m n in
      let n' = record n { clock = suc n.clock; events = sent p (serialize m') ∷ n.events } in
      let (logs, logged) = log_message_returns m' n.local_peer n' plain in
      (logs, rw (remote, logged) refl)

  -- The group with the peer, and the node that has filed it.
  abbrev joined_by : PeerRef → GroupRef → Network → Network
  joined_by p g n =
      let n' = file_peer p n in
      write_group g (Group.add_peer env.sha1 (id_of n') p (n'.group_store g)) n'

  -- What `acknowledge_join` does once the group has its neighbours.
  abbrev reply : PeerRef → GroupRef → Method Unit
  reply p g = do
    id ← local_group_id env
    ack ← gets (λ n. join_ack_message env n id)
    send env ack p
    direct ← gets (λ n. is_neighbour env (id_of n p) (n.group_store g))
    if direct then pure tt else start_timer join_timer p

  ending :
      (b : Bool) (p : PeerRef) (n : Network)
      → (timers : List Event) × AtMostTimer p timers
        × (((if b then pure tt else start_timer join_timer p) n).0 ≡ ok tt)
        × (((if b then pure tt else start_timer join_timer p) n).1.events ≡ timers ++ n.events)
        × (((if b then pure tt else start_timer join_timer p) n).1.peers ≡ n.peers)
        × (((if b then pure tt else start_timer join_timer p) n).1.group_store ≡ n.group_store)
  unfolding pure start_timer
  ending true p n = ([], inl refl, refl, refl, refl, refl)
  ending false p n =
      (started join_timer p join_complete_time ∷ [], inr refl, refl, refl, refl, refl)

  pub local_group_id_returns :
      (g : GroupRef) (n : Network)
      → n.local_group ≡ some g
      → local_group_id env n ≡ (ok (n.group_store g).id, n)
  unfolding local_group_id ◌>>=◌ gets pointee
  local_group_id_returns g n ours = rw ours refl

  reply_returns :
      (p : PeerRef) (g : GroupRef) (n : Network)
      → n.local_group ≡ some g
      → (n.store p).local ≡ false
      → let out = reply p g n in
        let m = stamp_now env (join_ack_message env n (n.group_store g).id) n in
        (timers : List Event) × AtMostTimer p timers
        × (out.0 ≡ ok tt)
        × (out.1.events ≡ timers ++ sent p (serialize m) ∷ n.events)
        × (out.1.peers ≡ n.peers)
        × (out.1.group_store ≡ n.group_store)
  unfolding ◌>>=◌ gets join_ack_message
  reply_returns p g n ours remote =
      let m = join_ack_message env n (n.group_store g).id in
      let named = local_group_id_returns g n ours in
      let (logs, sends) = send_returns m p n refl remote in
      let after : Network = record n {
        clock = suc n.clock;
        events = sent p (serialize (stamp_now env m n)) ∷ n.events;
        logs = logs;
      } in
      let (timers, few, returns, leave, peers, groups) =
        ending (is_neighbour env (id_of after p) (after.group_store g)) p after in
      (
        timers,
        few,
        rw (named, sends) returns,
        rw (named, sends) leave,
        rw (named, sends) peers,
        rw (named, sends) groups,
      )

  -- The acknowledgement of the local group.
  abbrev pub reply_message : GroupRef → Network → Message
  reply_message g n = stamp_now env (join_ack_message env n (n.group_store g).id) n

  pub reply_message-IsMessage :
      (g : GroupRef) (n : Network)
      → ((s : Bytes) → length (env.sha1 s) ≡ msg_stamp_length)
      → length (id_of n n.local_peer) ≡ id_length
      → length (n.store n.local_peer).pub_id_key ≡ key_length
      → length (n.group_store g).id ≤ group_id_length
      → IsMessage (reply_message g n)
  unfolding join_ack_message make_stamp make_hash
  reply_message-IsMessage g n digests wide_id wide_key wide_group = record {
    stamp_length = digests _;
    body_fits = (wide_group, wide_id, wide_key);
  }

  -- A remote peer is let into the local group.
  pub acknowledge_join-sends :
      (p : PeerRef) (g : GroupRef) (n : Network)
      → n.local_group ≡ some g
      → (n.store p).local ≡ false
      → let out = acknowledge_join env p g n in
        (timers : List Event) × AtMostTimer p timers
        × (out.0 ≡ ok tt)
        × (out.1.events ≡ timers ++ sent p (serialize (reply_message g n)) ∷ n.events)
        × (find (id_of n p) out.1.peers ≡ some p)
        × ((out.1.group_store g).peers ≡ insert (id_of n p) p (n.group_store g).peers)
  unfolding acknowledge_join group_add_peer ◌>>=◌ modify join_ack_message make_stamp Group.add_peer
      add_to_rings
  acknowledge_join-sends p g n ours remote =
      let s2 = joined_by p g n in
      let (v, updated, same_id, same_peers) = update_group_returns g s2 in
      let s3 = write_group g v s2 in
      let (timers, few, returns, events, peers, groups) = reply_returns p g s3 ours remote in
      let filed = file_peer p n in
      let member = Group.add_peer env.sha1 (id_of filed) p (n.group_store g) in
      let same_group =
        ap (λ (x : Group.Group). x.id) (written g v s2)
        ∙ same_id
        ∙ ap (λ (x : Group.Group). x.id) (written g member filed) in
      (
        timers,
        few,
        rw updated returns,
        rw updated (
            events
            ∙ ap
                (λ i.
                  timers
                  ++ sent p (serialize (stamp_now env (join_ack_message env n i) n)) ∷ n.events)
                same_group),
        rw updated (ap (find (id_of n p)) peers ∙ first (id_of n p) p n.peers),
        rw updated (
            ap (λ (h : GroupRef → Group.Group). (h g).peers) groups
            ∙ ap (λ (x : Group.Group). x.peers) (written g v s2)
            ∙ same_peers
            ∙ ap (λ (x : Group.Group). x.peers) (written g member filed)),
      )
