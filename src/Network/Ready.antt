-- ===== src/Network/Ready.antt =====
-- A node that waits reads the READY signal.
use rac_kun.Network.Join.Request.{caught_state}
use rac_kun.Message.RoundTrip.{IsMessage, parse_message-serialize}
use rac_kun.Network.Logs.{find_log}
use rac_kun.Outcome.{fault, hang}
use rac_kun.Network.Disconnect.{each_group}
use rac_kun.Message.{ready, msg_stamp_length, Message, serialize}
use rac_kun.OrdMap.Laws.{same_refl}
use rac_kun.Network.Acknowledged.{local_group_id_returns, log_message_returns}
use rac_kun.Prelude.{◌≡◌, some, ◌∷◌, false, subst, sym, length, refl, ap, ◌∙◌}
use rac_kun.Network.Frame.Methods.{method_rules}
use rac_kun.Exec.Follows.{Follows}
use rac_kun.Network.Wide.Reception.{SameStore, SameStore-IsPreorder, SameStore-IsFrame}
use rac_kun.Network.Handlers.{
  handle_ready, ready_in_group, own_place, notify_neighbours, handle_incoming_message, receive,
  receive_new, pass_on, process, success, is_connected,
}
use rac_kun.Exec.{◌>>=◌, ◌>>◌, gets, option_case, modify, pure, lift, try_catch, continue}
use rac_kun.Peer.{set_state, update, connected, is_known}
use rac_kun.Network.{
  listen, Env, GroupRef, Bytes, Method, Network, [], write_peer, ℕ, Result, PeerRef, ok, throw,
  true, none, emit_event, listening,
}

module _ (env : Env) where
  -- What follows in the group once the local peer is connected.
  abbrev settles : GroupRef → Method Unit
  settles g = do own_place env; notify_neighbours env g

  settles-SameStore : (g : GroupRef) → Follows SameStore (settles g)
  settles-SameStore g = search method_rules

  ready_in_group-connects :
      (l : GroupRef) (n : Network)
      → n.local_group ≡ some l
      → is_connected env (n.store n.local_peer) ≡ false
      → (ready_in_group env l n).1.store ≡ (write_peer n.local_peer (set_state connected) n).store
  unfolding ready_in_group ◌>>=◌ gets modify
  ready_in_group-connects l n ours waits =
      rw (local_group_id_returns env l n ours, same_refl, waits)
        ((settles-SameStore l).at (write_peer n.local_peer (set_state connected) n))

  -- The end of a loop leaves the node alone.
  then_pure : (r : Result (Unit {0})) (n : Network) → (continue r (λ _. pure tt) n).1 ≡ n
  unfolding pure
  then_pure (ok a) n = refl
  then_pure (throw e) n = refl
  then_pure fault n = refl
  then_pure hang n = refl

  handle_ready-connects :
      (id : Bytes) (l : GroupRef) (n : Network)
      → n.local_group ≡ some l
      → n.groups ≡ (id, l) ∷ []
      → is_connected env (n.store n.local_peer) ≡ false
      → (handle_ready env n).1.store ≡ (write_peer n.local_peer (set_state connected) n).store
  unfolding handle_ready each_group ◌>>=◌ gets
  handle_ready-connects id l n ours one waits =
      let connects : Network → Type 0 =
        λ s. s.store ≡ (write_peer n.local_peer (set_state connected) n).store in
      let (r, n') = ready_in_group env l n in
      subst (λ gs. connects (each_group (ready_in_group env) gs n).1) (sym one)
        (subst connects (sym (then_pure r n')) (ready_in_group-connects l n ours waits))

  -- A node that is not connected yet, with one group, which is its local one, receives a READY signal with
  -- a stamp of 20 bytes, which is not in its log, from a remote peer that is known. Then its local peer is
  -- connected, however the rest of the handler ends, and no other peer has changed.
  pub ready_connects :
      (fuel : ℕ) (stamp id : Bytes) (l : GroupRef) (p : PeerRef) (n : Network)
      → length stamp ≡ msg_stamp_length
      → (n.store p).local ≡ false
      → is_known (n.store p) ≡ true
      → find_log (record { stamp = stamp; body = ready }) n.logs ≡ none
      → n.local_group ≡ some l
      → n.groups ≡ (id, l) ∷ []
      → is_connected env (n.store n.local_peer) ≡ false
      → let m : Message = record { stamp = stamp; body = ready } in
        (handle_incoming_message env fuel success (serialize m) p n).1.store
        ≡ update n.local_peer (set_state connected) n.store
  unfolding handle_incoming_message ◌>>=◌ listen receive receive_new pass_on process gets
      option_case pure try_catch lift
  ready_connects fuel stamp id l p n wide remote known absent ours one waits =
      let m : Message = record { stamp = stamp; body = ready } in
      let v : IsMessage m = record { stamp_length = wide; body_fits = tt } in
      let n0 = emit_event (listening p) n in
      let (logs, logged) = log_message_returns m p n0 refl in
      let n1 = record n0 { logs = logs } in
      let (r, n2) = handle_ready env n1 in
      rw (remote, parse_message-serialize m v, absent, known, logged)
        (ap (λ (s : Network). s.store) (caught_state r n2)
          ∙ handle_ready-connects id l n1 ours one waits)
