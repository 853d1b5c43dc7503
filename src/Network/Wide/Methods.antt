-- ===== src/Network/Wide/Methods.antt =====
use rac_kun.Outcome.{
  fault, peer_not_found, out_of_range, message_parse, system_error, hang, bad_any_cast,
}
use rac_kun.Network.Wide.{
  Widens, Bool-cases, widens_same, inl, widens_group, widens_own, inr, widens_count,
  log_message-Widens,
}
use rac_kun.Message.Readable.{IsFull, Parses, serialize-Parses}
use rac_kun.Exec.{◌>>=◌, gets, results, modify, pure}
use rac_kun.Exec.Follows.{Follows, follows_rules, Follows-bind}
use rac_kun.Message.{Message, serialize, digest_size, make_stamp}
use rac_kun.Prelude.{length, ◌≡◌, ◌∷◌, [], refl}
use rac_kun.Group.{settle, Group, update_neighbours, add_to_rings, collect}
use rac_kun.Network.Join.{start_timer, update_group, group_add_peer}
use rac_kun.Network.Send.{
  send_each, stamped, send_ready, forward, send_all, send, broadcast_data, broadcast,
  local_group_id,
}
use rac_kun.Network.{
  peer_send, listen, Env, Bytes, make_channel_marker, PeerRef, GroupRef, Timer, on_group, ◌>>=◌,
  PeerMap, Method, Bool, Result, OrdMap, ok, true, now, ready_timer, join_timer, id_of, Network,
  lt_bytes, write_group, suc, throw,
}
use rac_kun.Network.Disconnect.{each_group, remove_from}
-- The methods of `Network` that send, and those that change groups and rings, keep the widths.
use rac_kun.Group
use rac_kun.Utils.{make_hash}
use rac_kun.Network.Wide.{Widens-IsPreorder}
use rac_kun.Exec.{continue}

-- Every hash has the bytes of a digest.
abbrev pub Digests : Env → Type 0
Digests env = (s : Bytes) → length (env.sha1 s) ≡ digest_size

pub Follows-each_Widens :
    (body : GroupRef → Method Unit) (m : OrdMap Bytes GroupRef)
    → ((g : GroupRef) → Follows Widens (body g))
    → Follows Widens (each_group body m)
unfolding each_group
Follows-each_Widens body [] h = search follows_rules
Follows-each_Widens body ((id, g) ∷ m) h =
    Follows-bind _ _ (h g) (λ _. Follows-each_Widens body m h)

pub peer_send-Widens : (msg : Bytes) (p : PeerRef) → Follows Widens (peer_send msg p)
unfolding peer_send
peer_send-Widens msg p = record {
  at = λ n. elim (Bool-cases (n.store p).local) [
    | inl e ↦ rw e (widens_same refl refl refl refl refl refl)
    | inr e ↦ rw e (widens_same refl refl refl refl refl refl)
  ];
}

pub listen-Widens : (p : PeerRef) → Follows Widens (listen p)
unfolding listen
listen-Widens p = record {
  at = λ n. elim (Bool-cases (n.store p).local) [
    | inl e ↦ rw e (widens_same refl refl refl refl refl refl)
    | inr e ↦ rw e (widens_same refl refl refl refl refl refl)
  ];
}

pub start_timer-Widens : (t : Timer) (p : PeerRef) → Follows Widens (start_timer t p)
unfolding start_timer
start_timer-Widens ready_timer p = record { at = λ n. widens_same refl refl refl refl refl refl }
start_timer-Widens join_timer p = record { at = λ n. widens_same refl refl refl refl refl refl }

pub send_each-Widens : (msg : Bytes) (m : PeerMap) → Follows Widens (send_each msg m)
unfolding send_each
send_each-Widens msg [] = search follows_rules
send_each-Widens msg ((i, p) ∷ m) =
    Follows-bind _ _ (peer_send-Widens msg p) (λ _. send_each-Widens msg m)

pub ruleset widens_rules = (
  follows_rules, widens_same, widens_group, widens_own, widens_count, peer_send-Widens,
  listen-Widens, start_timer-Widens, send_each-Widens, log_message-Widens,
)

module _ (env : Env) where
  pub local_group_id-Widens : Follows Widens (local_group_id env)
  unfolding local_group_id
  local_group_id-Widens = search follows_rules depth 8

  -- A message with its stamp is logged.
  pub forward-Widens :
      (g : GroupRef) (m : Message) → Parses (serialize m) → Follows Widens (forward env g m)
  unfolding forward
  forward-Widens g m r = search widens_rules depth 12

  -- The message is stamped with a digest, and is used then.
  pub stamped-Widens :
      {A : Type 0} (m : Message) (f : Message → Method A)
      → Digests env
      → IsFull m.body
      → ((m' : Message) → (m'.body ≡ m.body) → Parses (serialize m') → Follows Widens (f m'))
      → Follows Widens (stamped env m >>= f)
  unfolding stamped ◌>>=◌ gets now make_stamp make_hash
  stamped-Widens m f digests full then = record {
    at = λ n w.
        let m' = make_stamp env.sha1 (env.time n.clock) (id_of n n.local_peer) m in
        (then m' refl (serialize-Parses m' (digests _) full)).at (record n { clock = suc n.clock })
          (widens_same refl refl refl refl refl refl w);
  }

  pub send-Widens :
      (m : Message) (p : PeerRef) → Digests env → IsFull m.body → Follows Widens (send env m p)
  unfolding send
  send-Widens m p digests full =
      stamped-Widens m _ digests full (λ m' e r. search widens_rules depth 12)

  pub broadcast-Widens :
      (g : GroupRef) (m : Message)
      → Digests env
      → IsFull m.body
      → Follows Widens (broadcast env g m true)
  unfolding broadcast
  broadcast-Widens g m digests full =
      stamped-Widens m _ digests full (λ m' e r. forward-Widens g m' r)

  -- A marker is a digest.
  pub marker_full : (a b : Bytes) → Digests env → length (make_channel_marker env a b) ≡ digest_size
  unfolding make_channel_marker make_hash
  marker_full a b digests = elim (Bool-cases (lt_bytes a b)) [
    | inl e ↦ rw e (digests _)
    | inr e ↦ rw e (digests _)
  ]

  pub broadcast_data-Widens :
      (content : Bytes) → Digests env → Follows Widens (broadcast_data env content)
  unfolding broadcast_data
  broadcast_data-Widens content digests =
      search (widens_rules, local_group_id-Widens, broadcast-Widens, marker_full) depth 12

  pub send_all-Widens : (msg : Bytes) → Follows Widens (send_all env msg)
  unfolding send_all
  send_all-Widens msg = search widens_rules depth 12

  pub send_ready-Widens :
      (b : Bool) (p : PeerRef) → Digests env → Follows Widens (send_ready env b p)
  unfolding send_ready
  send_ready-Widens b p digests = search (widens_rules, send-Widens) depth 12

  -- The neighbours change, the id does not.
  settled :
      (ids : PeerRef → Bytes) (g : GroupRef) (n : Network) (r : Result (PeerMap × PeerMap))
      → Widens n
          (continue (settle env.sha1 ids (n.group_store g) r) (λ v. modify (write_group g v)) n).1
  unfolding settle modify
  settled ids g n (ok (preds, succs)) = widens_group g _ n refl
  settled ids g n (throw peer_not_found) = widens_group g _ n refl
  settled ids g n (throw out_of_range) = λ w. w
  settled ids g n (throw message_parse) = λ w. w
  settled ids g n (throw system_error) = λ w. w
  settled ids g n (throw bad_any_cast) = λ w. w
  settled ids g n fault = λ w. w
  settled ids g n hang = λ w. w

  pub update_group-Widens : (g : GroupRef) → Follows Widens (update_group env g)
  unfolding update_group on_group update_neighbours ◌>>=◌ results
  update_group-Widens g = record {
    at = λ n.
        settled (id_of n) g n
          (collect env.sha1 (id_of n) n.local_peer (n.group_store g).rings [] []);
  }

  pub group_add_peer-Widens : (p : PeerRef) (g : GroupRef) → Follows Widens (group_add_peer env p g)
  unfolding group_add_peer Group.add_peer add_to_rings
  group_add_peer-Widens p g = search widens_rules

  pub remove_from-Widens : (p : PeerRef) (g : GroupRef) → Follows Widens (remove_from env p g)
  unfolding remove_from Group.remove_peer ◌>>=◌ gets modify pure
  remove_from-Widens p g = record { at = λ n. widens_group g _ n refl }
