-- ===== src/Cluster/Routing.antt =====
-- What a node does with a broadcast whose marker it knows.
use rac_kun.Network.AtMostOnce.{Holds, log_message-Leaves, find_log-Holds}
use rac_kun.Network.Send.Wire.{sends, Remote, send_each-sends}
use rac_kun.Network.Logs.{
  log_message, insert_log, new_control, marker_entry, group_entry, acknowledge, find_log,
  modify_log, stamp_of, expected,
}
use rac_kun.Network.Handlers.{
  handle_incoming_message, receive, receive_new, pass_on, process, success,
}
use rac_kun.Network.Send.{broadcast, forward}
use rac_kun.Network.{Network, Event, Env, GroupRef, listen, listening, shown, MessageLog, id_of}
use rac_kun.Text.{Bytes}
use rac_kun.Message.{Message, serialize, payload, bcast_marker}
use rac_kun.Message.RoundTrip.{IsMessage, parse_message-serialize}
use rac_kun.Exec.{◌>>=◌, gets, modify, option_case, pure, pointee, try_catch}
use rac_kun.OrdMap.{find}
use rac_kun.Outcome.{ok}
use rac_kun.Peer.{is_known, PeerRef}
use rac_kun.Text.{bytes_less}
use rac_kun.Prelude.{
  Bool, Option, subst, false, true, ℕ, List, ◌≡◌, refl, some, none, ◌∷◌, [], ◌++◌, true, false,
  Option-cases, Bool-cases, inl, inr, ap,
}

-- The message is a broadcast of `content` under `marker`.
abbrev pub datum : Bytes → Bytes → Bytes → Message
datum stamp marker content = record { stamp = stamp; body = payload marker content }

-- The node finds a group under the marker, and its successors there are other nodes.
pub record Routes (marker : Bytes) (n : Network) : Type 0 where
  pub id : Bytes
  pub group : GroupRef
  pub marked : find marker n.channel_markers ≡ some id
  pub grouped : find id n.groups ≡ some group
  pub remote : Remote n (n.group_store group).successors

-- Whether the node has the message in its log.
abbrev pub is_some : Option MessageLog → Bool
is_some none = false
is_some (some l) = true

abbrev pub knows : Message → Network → Bool
knows m n = is_some (find_log m n.logs)

pub knows-Holds : (m : Message) (n : Network) → Holds m n → knows m n ≡ true
knows-Holds m n h = let (l, e) = find_log-Holds m n h in ap is_some e

-- What is logged or sent changes no route.
abbrev pub rerouted :
    {marker : Bytes} {n : Network}
    → Routes marker n
    → (ls : List MessageLog) (es : List Event) → Routes marker (record n { logs = ls; events = es })
rerouted r ls es = record {
  id = r.id;
  group = r.group;
  marked = r.marked;
  grouped = r.grouped;
  remote = r.remote;
}

-- A broadcast under `marker`.
module _ (m : Message) (marker : Bytes) (b : bcast_marker m.body ≡ some marker) where
  insert_log-Routes :
      (n : Network)
      → Routes marker n
      → (ls : List MessageLog) × (insert_log m n ≡ (ok tt, record n { logs = ls }))
  unfolding insert_log new_control ◌>>=◌ marker_entry group_entry pointee option_case pure gets
      modify find serialize expected
  insert_log-Routes n r =
      let control = expected (id_of n) (n.group_store r.group).predecessors in
      let entry : MessageLog = record { message = serialize m; control = control } in
      (n.logs ++ entry ∷ [], rw (b, r.marked, option_case, r.grouped) refl)

  pub log_message-Routes :
      (p : PeerRef) (n : Network)
      → Routes marker n
      → (ls : List MessageLog) × (log_message m p n ≡ (ok tt, record n { logs = ls }))
  unfolding log_message ◌>>=◌ acknowledge modify gets option_case
  log_message-Routes p n r =
      let counted = modify_log (stamp_of (serialize m)) (id_of n p) in
      elim (Option-cases (find_log m n.logs)) [
        | inl e ↦
            let (ls, inserted) = insert_log-Routes n r in
            elim (Bool-cases (n.store p).local) [
              | inl l ↦ (ls, rw (e, option_case, inserted, l) refl)
              | inr l ↦ (counted ls, rw (e, option_case, inserted, l) refl)
            ]
        | inr (log, e) ↦ elim (Bool-cases (n.store p).local) [
          | inl l ↦ (n.logs, rw (e, option_case, l) refl)
          | inr l ↦ (counted n.logs, rw (e, option_case, l) refl)
        ]
      ]

  -- What `log_message` leaves is in the log.
  pub log_message-knows :
      (p : PeerRef) (n : Network) {n' : Network}
      → log_message m p n ≡ (ok tt, n')
      → knows m n' ≡ true
  log_message-knows p n {n'} e = elim (log_message-Leaves m p n) [
    | inl (o, h) ↦ knows-Holds m n' (subst (Holds m) (ap (λ o. o.1) e) h)
    | inr o ↦ absurd (cc (ap (λ o. o.0) e, o))
  ]

  -- Forwarding: the message goes to the successors, and is in the log.
  pub forward-Routes :
      (env : Env) (n : Network) (r : Routes marker n)
      → (ls : List MessageLog) × (forward env r.group m n ≡ (
        ok tt,
        record n {
          logs = ls;
          events = sends (serialize m) (n.group_store r.group).successors n.events;
        },
      ))
        × (is_some (find_log m ls) ≡ true)
  unfolding forward ◌>>=◌ gets
  forward-Routes env n r =
      let succs = (n.group_store r.group).successors in
      let n1 = record n { events = sends (serialize m) succs n.events } in
      let (ls, logged) = log_message-Routes n.local_peer n1 (rerouted r n.logs n1.events) in
      (
        ls,
        rw (send_each-sends (serialize m) succs n r.remote) logged,
        log_message-knows n.local_peer n1 logged,
      )

module _ (stamp marker content : Bytes) where
  pass_on-Routes :
      (env : Env) (n : Network) (r : Routes marker n)
      → pass_on env (datum stamp marker content) n
        ≡ forward env r.group (datum stamp marker content) n
  unfolding pass_on ◌>>=◌ gets option_case group_entry pointee broadcast find forward
  pass_on-Routes env n r = rw (r.marked, option_case, r.grouped) refl

  -- A node that does not know the message handles it.
  pub fresh-Routes :
      (env : Env) (fuel : ℕ) (p : PeerRef) (n : Network) (r : Routes marker n)
      → IsMessage (datum stamp marker content)
      → (n.store p).local ≡ false
      → is_known (n.store p) ≡ true
      → find_log (datum stamp marker content) n.logs ≡ none
      → (ls : List MessageLog) × (handle_incoming_message env fuel success
            (serialize (datum stamp marker content))
            p
            n
          ≡ (
            ok tt,
            record n {
              logs = ls;
              events =
                  shown p content
                  ∷ sends
                      (serialize (datum stamp marker content))
                      (n.group_store r.group).successors
                      (listening p ∷ n.events);
            },
          ))
  unfolding handle_incoming_message ◌>>=◌ listen receive receive_new try_catch gets modify process
  fresh-Routes env fuel p n r v remote known fresh =
      let m = datum stamp marker content in
      let n0 = record n { events = listening p ∷ n.events } in
      let (ls, logged) = log_message-Routes m marker refl p n0 (rerouted r n.logs n0.events) in
      let n1 = record n0 { logs = ls } in
      let r1 = rerouted r ls n0.events in
      let (ls', sent, _) = forward-Routes m marker refl env n1 r1 in
      (
        ls',
        rw
            (
              remote,
              parse_message-serialize m v,
              fresh,
              option_case,
              known,
              logged,
              pass_on-Routes env n1 r1,
              sent,
            )
            refl,
      )
