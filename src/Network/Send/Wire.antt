-- ===== src/Network/Send/Wire.antt =====
-- What `send` and `broadcast` put on the wire.
use rac_kun.Network.Send.{send, stamped, forward, send_each, broadcast}
use rac_kun.Network.Logs.{
  log_message, insert_log, new_control, marker_entry, group_entry, acknowledge,
}
use rac_kun.Network.{
  Network, Env, Event, PeerRef, Bytes, PeerMap, sent, peer_send, id_of, now, GroupRef, Bool, suc,
}
use rac_kun.Message.{Message, serialize, make_stamp, parse_message, msg_stamp_length}
use rac_kun.Message.RoundTrip.{IsBody, parse_message-serialize}
use rac_kun.Exec.Follows.{IsPreorder, Follows, follows_rules}
use rac_kun.Exec.{◌>>=◌, gets, modify, pure}
use rac_kun.Outcome.{ok}
use rac_kun.Prelude.{
  ◌≡◌, refl, ◌∙◌, ◌∷◌, [], false, List, length, Bool-cases, inl, inr, All, if◌then◌else◌, true,
}

-- Nothing leaves the node.
record Quiet (n n' : Network) : Type 0 where
  same_events : n'.events ≡ n.events

quiet : {n n' : Network} → n'.events ≡ n.events → Quiet n n'
quiet e = record { same_events = e }

instance Quiet-IsPreorder : IsPreorder Quiet
Quiet-IsPreorder = record {
  refl_at = λ n. quiet refl;
  trans = λ n m k h j. quiet (j.same_events ∙ h.same_events);
}

acknowledge-Quiet : (m : Message) (p : PeerRef) → Follows Quiet (acknowledge m p)
unfolding acknowledge modify
acknowledge-Quiet m p = record {
  at = λ n. elim (Bool-cases (n.store p).local) [
    | inl e ↦ rw e (quiet refl)
    | inr e ↦ rw e (quiet refl)
  ];
}

-- `log_message` sends nothing, however it ends.
log_message-Quiet : (m : Message) (p : PeerRef) → Follows Quiet (log_message m p)
unfolding log_message insert_log new_control marker_entry group_entry
log_message-Quiet m p = search (follows_rules, acknowledge-Quiet, quiet) depth 24

-- The events of sending the same bytes to each peer of a map, newest first.
abbrev pub sends : Bytes → PeerMap → List Event → List Event
sends msg [] events = events
sends msg ((k, p) ∷ m) events = sends msg m (sent p msg ∷ events)

-- The peers of a map are other nodes.
abbrev pub Remote : Network → PeerMap → Type 0
Remote n = All (λ entry. (n.store entry.1).local ≡ false)

pub send_each-sends :
    (msg : Bytes) (m : PeerMap) (n : Network)
    → Remote n m
    → send_each msg m n ≡ (ok tt, record n { events = sends msg m n.events })
unfolding send_each ◌>>=◌ peer_send pure
send_each-sends msg [] n h = refl
send_each-sends msg ((k, p) ∷ m) n h =
    rw (h.0) (send_each-sends msg m (record n { events = sent p msg ∷ n.events }) h.1)

module _ (env : Env) where
  forward-sends :
      (g : GroupRef) (m : Message) (n : Network)
      → Remote n (n.group_store g).successors
      → (forward env g m n).1.events ≡ sends (serialize m) (n.group_store g).successors n.events
  unfolding forward ◌>>=◌ gets
  forward-sends g m n h =
      rw (send_each-sends (serialize m) (n.group_store g).successors n h)
        ((log_message-Quiet m n.local_peer).at _).same_events

  -- The message as it is stamped.
  abbrev pub stamp_now : Message → Network → Message
  stamp_now m n = make_stamp env.sha1 (env.time n.clock) (id_of n n.local_peer) m

  -- A broadcast, stamped if it has to be, is sent once to each successor of the group, in the order of
  -- their ids, and nothing else leaves the node, if the successors are other nodes; however the writing
  -- of the log ends.
  pub broadcast-sends :
      (g : GroupRef) (m : Message) (add_stamp : Bool) (n : Network)
      → Remote n (n.group_store g).successors
      → (broadcast env g m add_stamp n).1.events
        ≡ sends
            (serialize (if add_stamp then stamp_now m n else m))
            (n.group_store g).successors
            n.events
  unfolding broadcast ◌>>=◌ stamped now gets
  broadcast-sends g m true n h =
      forward-sends g (stamp_now m n) (record n { clock = suc n.clock }) h
  broadcast-sends g m false n h = forward-sends g m n h

  -- A message whose fields have their widths, apart from its stamp, is stamped and sent to a remote
  -- peer, and nothing else leaves the node; what is sent is read back as the stamped message, if every
  -- hash has 20 bytes. This is so however the writing of the log ends.
  pub parse_message-send :
      (m : Message) (p : PeerRef) (n : Network)
      → ((s : Bytes) → length (env.sha1 s) ≡ msg_stamp_length)
      → IsBody m.body
      → (n.store p).local ≡ false
      → ((send env m p n).1.events ≡ sent p (serialize (stamp_now m n)) ∷ n.events)
        × (parse_message (serialize (stamp_now m n)) ≡ ok (stamp_now m n))
  unfolding send ◌>>=◌ gets stamped now peer_send make_stamp
  parse_message-send m p n wide fits remote = (
    rw remote ((log_message-Quiet (stamp_now m n) n.local_peer).at _).same_events,
    parse_message-serialize (stamp_now m n) (record { stamp_length = wide _; body_fits = fits }),
  )
