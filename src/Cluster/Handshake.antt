-- ===== src/Cluster/Handshake.antt =====
-- A node lets a peer in, and that peer's node reads what it is sent.
use rac_kun.Network.Ready.{ready_connects}
use rac_kun.Peer.{set_state, init, update, Store, Peer}
use rac_kun.Message.{make_stamp, ready, Message}
use rac_kun.OrdMap.Laws.{IsSorted}
use rac_kun.Network.Joined.{join_ack_joins, join_ack_leaves, update_self, no_group}
use rac_kun.Prelude.{◌∷◌, ◌++◌, subst, sym, ◌≢◌, ap, ◌∙◌, Bool-cases, ◌==◌, inl, inr}
use rac_kun.Outcome.{ok}
use rac_kun.Network.Handlers.{handle_incoming_message, success, is_connected}
use rac_kun.Network.Acknowledged.{
  reply_message, AtMostTimer, acknowledge_join-sends, reply_message-IsMessage,
}
use rac_kun.Network.Logs.{find_log}
use rac_kun.Prelude.{[], ℕ, ◌≡◌, length, none, refl, ◌≤◌, some, false, List, ◌++◌}
use rac_kun.Text.{Bytes, bytes_less}
use rac_kun.Network.{Network, Env, GroupRef, id_of, Event, sent}
use rac_kun.Message.{msg_stamp_length, id_length, key_length, group_id_length, serialize}
use rac_kun.Network.Join.{join_ack_message, acknowledge_join}
use rac_kun.OrdMap.{find, insert}
use rac_kun.Peer.{PeerRef, is_known, connected}

-- A node lets a remote peer `p` into its local group, and another node, which has no group yet, receives
-- from a remote peer `q` that it does not know what the first one sends. Both methods return. The
-- first node sends that peer one message, may then start its join timer, and has it as a member of
-- the group. The second node has a local group with the same id, whose one member is `q`, now connected and
-- with the first node's id and key. This is so if every hash of the first node has 20 bytes, its id
-- and its key have their widths, the id of its group at most its width, and the stamp of the message is
-- not in the second node's log.
pub handshake :
    (ea eb : Env) (a b : Network) (p q : PeerRef) (g : GroupRef) (fuel : ℕ)
    → ((s : Bytes) → length (ea.sha1 s) ≡ msg_stamp_length)
    → length (id_of a a.local_peer) ≡ id_length
    → length (a.store a.local_peer).pub_id_key ≡ key_length
    → length (a.group_store g).id ≤ group_id_length
    → a.local_group ≡ some g
    → (a.store p).local ≡ false
    → (b.store q).local ≡ false
    → is_known (b.store q) ≡ false
    → find_log (reply_message ea g a) b.logs ≡ none
    → b.local_group ≡ none
    → b.groups ≡ []
    → let acknowledged = acknowledge_join ea p g a in
      let bytes = serialize (reply_message ea g a) in
      let read = handle_incoming_message eb fuel success bytes q b in
      let joined = read.1.group_store b.next_group in
      (timers : List Event) × AtMostTimer p timers
      × (acknowledged.0 ≡ ok tt)
      × (acknowledged.1.events ≡ timers ++ sent p bytes ∷ a.events)
      × ((acknowledged.1.group_store g).peers ≡ insert (id_of a p) p (a.group_store g).peers)
      × (read.0 ≡ ok tt)
      × (read.1.local_group ≡ some b.next_group)
      × (joined.id ≡ (a.group_store g).id)
      × (joined.peers ≡ (id_of a a.local_peer, q) ∷ [])
      × (read.1.store q
          ≡ set_state connected
              (init (id_of a a.local_peer) (a.store a.local_peer).pub_id_key (b.store q)))
unfolding make_stamp join_ack_message
handshake ea eb a b p q g fuel digests wide_id wide_key wide_group ours outside remote unknown fresh
      alone bare =
    let m = reply_message ea g a in
    let (timers, few, returns, events, filed, member) =
      acknowledge_join-sends ea p g a ours outside in
    let v = reply_message-IsMessage ea g a digests wide_id wide_key wide_group in
    let gid = (a.group_store g).id in
    let (reads, local, grouped, named, members, peers, introduced) =
      join_ack_joins eb fuel m.stamp gid (id_of a a.local_peer) (a.store a.local_peer).pub_id_key q
        b v remote unknown fresh alone (subst (λ x. find gid x ≡ none) (sym bare) (no_group gid))
        (subst IsSorted (sym bare) tt) in
    (timers, few, returns, events, member, reads, local, named, members, introduced)

still_connected :
    (r q : PeerRef) (s : Store)
    → (s q).state ≡ connected
    → (update r (set_state connected) s q).state ≡ connected
unfolding update set_state
still_connected r q s h = elim (Bool-cases (r == q)) [ inl e ↦ rw e refl | inr e ↦ rw e h ]

-- The node that was let in then receives a READY signal, with a stamp of 20 bytes that is not in its log,
-- from the same peer `q`, which is not its local peer. Then its local peer, which was not connected, is
-- connected, and so is `q`; the first message is read as in the handshake, under the same conditions on
-- both nodes.
pub join_completes :
    (ea eb : Env) (a b : Network) (q : PeerRef) (g : GroupRef) (fuel : ℕ) (stamp : Bytes)
    → ((s : Bytes) → length (ea.sha1 s) ≡ msg_stamp_length)
    → length (id_of a a.local_peer) ≡ id_length
    → length (a.store a.local_peer).pub_id_key ≡ key_length
    → length (a.group_store g).id ≤ group_id_length
    → (b.store q).local ≡ false
    → is_known (b.store q) ≡ false
    → find_log (reply_message ea g a) b.logs ≡ none
    → b.local_group ≡ none
    → b.groups ≡ []
    → q ≢ b.local_peer
    → is_connected eb (b.store b.local_peer) ≡ false
    → length stamp ≡ msg_stamp_length
    → let let_in =
        (handle_incoming_message eb fuel success (serialize (reply_message ea g a)) q b).1 in
      find_log (record { stamp = stamp; body = ready }) let_in.logs ≡ none
      → let m : Message = record { stamp = stamp; body = ready } in
        let at_end = (handle_incoming_message eb fuel success (serialize m) q let_in).1 in
        ((at_end.store b.local_peer).state ≡ connected) × ((at_end.store q).state ≡ connected)
unfolding make_stamp join_ack_message set_state init update
join_completes ea eb a b q g fuel stamp digests wide_id wide_key wide_group remote unknown fresh
      alone bare other waits wide absent =
    let id = id_of a a.local_peer in
    let key = (a.store a.local_peer).pub_id_key in
    let gid = (a.group_store g).id in
    let m = reply_message ea g a in
    let let_in = (handle_incoming_message eb fuel success (serialize m) q b).1 in
    let v = reply_message-IsMessage ea g a digests wide_id wide_key wide_group in
    let (reads, local, grouped, named, members, peers, introduced) =
      join_ack_joins eb fuel m.stamp gid id key q b v remote unknown fresh alone
        (subst (λ x. find gid x ≡ none) (sym bare) (no_group gid)) (subst IsSorted (sym bare) tt) in
    let (groups, same_local, same_own) =
      join_ack_leaves eb fuel m.stamp gid id key q b v remote unknown fresh alone bare other in
    let own = ap let_in.store same_local ∙ same_own in
    let ends =
      ready_connects eb fuel stamp gid b.next_group q let_in wide
        (ap (λ (x : Peer). x.local) introduced ∙ remote) (ap is_known introduced) absent local
        groups (ap (is_connected eb) own ∙ waits) in
    (
      ap (λ (t : Store). (t b.local_peer).state) ends
          ∙ ap (λ r. (update r (set_state connected) let_in.store b.local_peer).state) same_local
          ∙ ap (λ (x : Peer). x.state)
              (update_self b.local_peer (set_state connected) let_in.store),
      ap (λ (t : Store). (t q).state) ends
          ∙ still_connected let_in.local_peer q let_in.store
              (ap (λ (x : Peer). x.state) introduced),
    )
