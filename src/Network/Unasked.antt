-- ===== src/Network/Unasked.antt =====
-- A READY Notification from a peer that has not asked to join.
use rac_kun.Message.Received.{notif-long}
use rac_kun.Message.Readable.{Parses}
use rac_kun.Network.Answered.{answer_join_request-sends, announcement, marker_of}
use rac_kun.Network.Acknowledged.{AtMostTimer, reply_message}
use rac_kun.Network.Send.Wire.{sends}
use rac_kun.Cluster.Routing.{Routes}
use rac_kun.Network.Join.{ready_time}
use rac_kun.OrdMap.{find, insert}
use rac_kun.Text.{bytes_less}
use rac_kun.Outcome.{Result, ok, throw, fault, hang}
use rac_kun.Utils.{itos}
use rac_kun.Message.RoundTrip.{IsMessage, parse_message-serialize}
use rac_kun.Network.Logs.{find_log}
use rac_kun.Message.{
  msg_stamp_length, ready_notif, serialize, Message, serialize_body, byte_at, bcast_marker_length,
  group_id_length, join_notif,
}
use rac_kun.Prelude.{
  length, ◌≡◌, false, some, ◌∷◌, ==_iff, refl, ◌+◌, ◌≤◌, arith, ◌++◌, if◌then◌else◌, length-append,
  All-imp, Bool-cases, ◌∙◌, ◌==◌, inl, inr, ap,
}
use rac_kun.Network.Join.{answer_join_request, check_for_new_peers, first_known}
use rac_kun.Network.Handlers.{
  handle_incoming_message, receive, receive_new, pass_on, process, handle_ready_notif, success,
}
use rac_kun.Exec.{◌>>=◌, try_catch, gets, option_case, modify, pure, results, lift}
use rac_kun.Peer.{set_state, update, connected, is_known}
use rac_kun.Network.{
  listen, PeerRef, Env, Network, ℕ, Bytes, write_peer, OrdMap, Option, emit_event, listening, none,
  Bool, [], GroupRef, suc, List, Event, started, ready_timer, sent, id_of,
}

-- The state in which the request of a peer is answered that never made one.
abbrev pub let_in : PeerRef → Network → Network
let_in p n = write_peer p (set_state connected) (emit_event (listening p) n)

-- A JOIN Notification of a peer without an id and a key, with a stamp, a marker and a group id of their
-- widths and with an address and a port of at most 23 characters together, is read by nobody.
pub unnamed_notif_unread :
    (stamp marker group_id ip : Bytes) (channel : Bool) (port : ℕ)
    → length stamp ≡ msg_stamp_length
    → length marker ≡ bcast_marker_length
    → length group_id ≡ group_id_length
    → length ip + length (itos port) ≤ 23
    → ¬ Parses (
        serialize
          (record { stamp = stamp; body = join_notif marker channel group_id [] [] ip port }))
unfolding serialize serialize_body byte_at
unnamed_notif_unread stamp marker group_id ip channel port s k g small (m, e) =
    let msg =
      serialize
        (record { stamp = stamp; body = join_notif marker channel group_id [] [] ip port }) in
    let long = notif-long msg refl e in
    let endpoint = ip ++ b':' ∷ itos port in
    let body = marker ++ (if channel then 1 else 0) ∷ (group_id ++ endpoint) in
    omega (
      arith,
      long,
      small,
      s,
      k,
      g,
      length-append ip (b':' ∷ itos port),
      length-append group_id endpoint,
      length-append marker ((if channel then 1 else 0) ∷ (group_id ++ endpoint)),
      length-append stamp body,
    )

module _ (env : Env) where
  -- The handler lets the peer in, and answers the request that it has not made.
  unasked-answer :
      (fuel : ℕ) (stamp addr : Bytes) (p : PeerRef) (port : ℕ)
      (rest : OrdMap Bytes (Option PeerRef × ℕ)) (n : Network)
      → length stamp ≡ msg_stamp_length
      → (n.store p).local ≡ false
      → is_known (n.store p) ≡ false
      → find_log (record { stamp = stamp; body = ready_notif }) n.logs ≡ none
      → n.new_peers ≡ (addr, (some p, port)) ∷ rest
      → handle_incoming_message env fuel success
          (serialize (record { stamp = stamp; body = ready_notif }))
          p
          n
        ≡ try_catch (answer_join_request env p port) (let_in p n)
  unfolding handle_incoming_message ◌>>=◌ listen receive receive_new pass_on process
      handle_ready_notif check_for_new_peers first_known gets option_case modify pure results
      set_state update try_catch lift
  unasked-answer fuel stamp addr p port rest n wide remote unknown absent waits =
      let m : Message = record { stamp = stamp; body = ready_notif } in
      let v : IsMessage m = record { stamp_length = wide; body_fits = tt } in
      rw (remote, parse_message-serialize m v, absent, unknown, waits, (==_iff p p).1 refl) refl

  caught_ok :
      (o : Result (Unit {0}) × Network) (n : Network) → o.0 ≡ ok tt → try_catch (λ _. o) n ≡ o
  unfolding try_catch
  caught_ok (ok a, k) n h = refl
  caught_ok (throw e, k) n h = absurd (cc h)
  caught_ok (fault, k) n h = absurd (cc h)
  caught_ok (hang, k) n h = absurd (cc h)

  let_in-local : (p q : PeerRef) (n : Network) → ((let_in p n).store q).local ≡ (n.store q).local
  unfolding update set_state
  let_in-local p q n = elim (Bool-cases (p == q)) [ inl e ↦ rw e refl | inr e ↦ rw e refl ]

  let_in-Routes :
      (p : PeerRef) (marker : Bytes) (n : Network) → Routes marker n → Routes marker (let_in p n)
  let_in-Routes p marker n r = record {
    id = r.id;
    group = r.group;
    marked = r.marked;
    grouped = r.grouped;
    remote =
        All-imp (λ e. (n.store e.1).local ≡ false) (λ e. ((let_in p n).store e.1).local ≡ false)
          (n.group_store r.group).successors (λ e h. let_in-local p e.1 n ∙ h) r.remote;
  }

  -- A READY Notification with a stamp of 20 bytes, which is not in the log, comes from a remote peer
  -- that only connected and has never asked to join, and that is the first entry of `new_peers`. The
  -- node has a local group, to which the marker of that group leads, and whose successors are other
  -- nodes. Then the handler returns, the peer is connected, is filed under the id that it has, and is a
  -- member of the group. The node sends, in this order, a JOIN Notification of the peer to each
  -- successor, and a JOIN Acknowledgement to the peer, starts at most the join timer, and starts the
  -- ready timer; nothing else leaves the node.
  pub unasked_ready_notif :
      (fuel : ℕ) (stamp addr : Bytes) (p : PeerRef) (port : ℕ)
      (rest : OrdMap Bytes (Option PeerRef × ℕ)) (g : GroupRef) (n : Network)
      (r : Routes (marker_of env p port g n) n)
      → length stamp ≡ msg_stamp_length
      → (n.store p).local ≡ false
      → is_known (n.store p) ≡ false
      → find_log (record { stamp = stamp; body = ready_notif }) n.logs ≡ none
      → n.new_peers ≡ (addr, (some p, port)) ∷ rest
      → n.local_group ≡ some g
      → r.group ≡ g
      → let m : Message = record { stamp = stamp; body = ready_notif } in
        let out = handle_incoming_message env fuel success (serialize m) p n in
        let n1 = let_in p n in
        let ack = reply_message env g (record n1 { clock = suc n.clock }) in
        (timers : List Event) × AtMostTimer p timers
        × (out.0 ≡ ok tt)
        × (out.1.events
            ≡ started ready_timer p ready_time
              ∷ (timers
                  ++ sent p (serialize ack)
                    ∷ sends
                        (serialize (announcement env p port g n1))
                        (n.group_store g).successors
                        (listening p ∷ n.events)))
        × (find (id_of n1 p) out.1.peers ≡ some p)
        × ((out.1.group_store g).peers ≡ insert (id_of n1 p) p (n.group_store g).peers)
        × (out.1.store ≡ update p (set_state connected) n.store)
  unfolding let_in-Routes answer_join_request try_catch
  unasked_ready_notif fuel stamp addr p port rest g n r wide remote unknown absent waits ours here =
      let n1 = let_in p n in
      let (timers, few, returns, events, peers, members, store) =
        answer_join_request-sends env p port g n1 (let_in-Routes p _ n r) ours here
          (let_in-local p p n ∙ remote) in
      let ends =
        unasked-answer fuel stamp addr p port rest n wide remote unknown absent waits
        ∙ caught_ok (answer_join_request env p port n1) n1 returns in
      (
        timers,
        few,
        ap (λ o. o.0) ends ∙ returns,
        ap (λ o. o.1.events) ends ∙ events,
        ap (λ o. find (id_of n1 p) o.1.peers) ends ∙ peers,
        ap (λ o. (o.1.group_store g).peers) ends ∙ members,
        ap (λ o. o.1.store) ends ∙ store,
      )
