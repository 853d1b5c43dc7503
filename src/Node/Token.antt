-- ===== src/Node/Token.antt =====
-- Runs and the join token: the entries of `new_peers` of src/Network.cpp while the token is free. A request
-- whose entry another peer at the same address has overwritten is not among them any more.
use rac_kun.Exec.{results, modify}
use rac_kun.Network.Token.Reception.{handle_incoming_message-Sound}
use rac_kun.Network.Frame.Methods.{Follows-send_all, Follows-broadcast_data, Follows-send_ready}
use rac_kun.Network.Send.{send}
use rac_kun.Outcome.{system_error, fault, hang}
use rac_kun.Text.{bytes_less}
use rac_kun.Network.Pending.{file_new-IsFiled, queue_of, file_new-NoneWaits, Idles}
use rac_kun.Exec.Follows.{Follows}
use rac_kun.Network.Token.Methods.{IsCalm, check_for_new_peers-IsCalm}
use rac_kun.OrdMap.{assign}
use rac_kun.Network.Token.Sound.{
  Sound, Sound-try_catch, Sound-if, Calms, Sound-careful, sound_rules, Restores, Sound-Restores,
  Restores-modify, connect-IsFiled,
}
use rac_kun.Prelude.{
  ◌<◌, ◌≢◌, ◌≡◌, arith, false, ==_iff, refl, suc, none, Bool-cases, subst, inl, All, inr,
  Option-cases,
}
use rac_kun.Node.{
  handle_accept, Bool, Bytes, is_known, some, Option, [], returned, command_broadcast, run_line,
  command_join, live, run_live, Result, Stimulus, List, received, true, is_connected, ◌∷◌,
  find_char, typed, accepted, before, fired, after, ok, throw,
}
use rac_kun.Network.Join.{
  add_new_peer, allocate, connect_peer, or_none, complete_join, check_for_new_peers,
}
use rac_kun.Exec.{◌>>=◌, modify, ◌>>◌, option_case, raise, gets}
use rac_kun.Network.Token.{
  Careful-IsPreorder, Careful-IsFrame, Careful, careful_rules, allocate-Careful,
  local_state-Careful,
}
use rac_kun.Network.Join
use rac_kun.Message.{Body, Message}
use rac_kun.Network.{
  ready_timer, join_timer, Env, Endpoint, Network, Method, listen, write_peer, id_of, make_network,
}
use rac_kun.Peer.{joining, update, make_peer, set_state, PeerRef, get_address, Peer}

-- A new peer that nobody holds yet.
abbrev IsNew : PeerRef → Network → Type 0
IsNew p n = (p < n.next_peer) × (p ≢ n.local_peer) × (is_known (n.store p) ≡ false)

allocate-Sound :
    (e : Endpoint) (rest : PeerRef → Method Unit)
    → ((p : PeerRef) (n : Network) → IsNew p n → IsCalm n → Calms (rest p n))
    → Sound (allocate e >>= rest)
unfolding allocate ◌>>=◌ update make_peer
allocate-Sound e rest h = record {
  at = λ n v w.
      let (r, n1) = allocate e n in
      let step = (allocate-Careful e).at n in
      h n.next_peer n1
        (omega arith, (λ q. omega (arith, v.fresh)), rw ((==_iff n.next_peer n.next_peer).1 refl))
        (step.filed v, step.waits v w);
}

abbrev pend : PeerRef → Network → Network
pend p n = record n { new_peers = assign (get_address (n.store p)) (some p, 0) n.new_peers }

-- A new peer becomes pending, and what follows.
pend-Calms :
    (p : PeerRef) (k : Method Unit) (n : Network)
    → Follows Careful k
    → IsNew p n
    → IsCalm n
    → Calms (k (pend p n))
unfolding assign
pend-Calms p k n c new calm =
    (Sound-careful c).at (pend p n) (file_new-IsFiled p (queue_of n) new.0 new.1 calm.0)
      (file_new-NoneWaits p (queue_of n) new.2 calm.1)

handle_accept-Sound : (error : Bool) (e : Option Endpoint) → Sound (handle_accept error e)
unfolding handle_accept add_new_peer ◌>>=◌
handle_accept-Sound error none =
    Sound-if error (Sound-careful (search careful_rules)) (Sound-careful (search careful_rules))
handle_accept-Sound error (some e) =
    Sound-if error (Sound-careful (search careful_rules))
      (allocate-Sound e add_new_peer (λ p n. pend-Calms p (listen p) n (search careful_rules)))

-- The outcome of a connection, and what follows.
connected-Sound :
    (o : Option Endpoint) (rest : PeerRef → Method Unit)
    → ((p : PeerRef) (n : Network) → IsNew p n → IsCalm n → Calms (rest p n))
    → Sound (option_case o (raise system_error) allocate >>= rest)
unfolding option_case ◌>>=◌
connected-Sound none rest h = record { at = λ n v w. (v, w) }
connected-Sound (some e) rest h = allocate-Sound e rest h

module _ (env : Env) where
  abbrev join_request : Network → Message
  join_request n = record {
    stamp = [];
    body = Body.join (id_of n n.local_peer) (n.store n.local_peer).pub_id_key env.listen_port;
  }

  -- What `join` does with the entry peer.
  abbrev greet : PeerRef → Method Unit
  greet entry = do
    modify (λ n. write_peer n.local_peer (set_state joining) n)
    add_new_peer entry
    request ← gets join_request
    send env request entry

  greet-Calms : (p : PeerRef) (n : Network) → IsNew p n → IsCalm n → Calms (greet p n)
  unfolding add_new_peer ◌>>=◌ modify update set_state
  greet-Calms p n new calm =
      let local = (local_state-Careful joining).at n in
      let n2 = write_peer n.local_peer (set_state joining) n in
      pend-Calms p (listen p >>= λ _. gets join_request >>= λ request. send env request p) n2
        (search careful_rules) (new.0, new.1, ground (arith, new.1, new.2))
        (local.filed calm.0, local.waits calm.0 calm.1)

  join-Sound : (ip port : Bytes) → Sound (Join.join env ip port)
  unfolding Join.join connect_peer ◌>>=◌ modify
  join-Sound ip port = Sound-try_catch (record {
    at = λ n.
        let count = n.connections in
        (connected-Sound (or_none (env.connects count) (env.resolve count ip port)) greet
            greet-Calms).at
          (record n { connections = suc count });
  })

  command_join-Sound : (argument : Bytes) → Sound (command_join env argument)
  unfolding command_join results modify
  command_join-Sound argument = record {
    at = λ n v w. elim (Bool-cases (is_known (n.store n.local_peer))) [
      | inl e ↦ rw e (v, w)
      | inr e ↦
          let colon = find_char b':' argument in
          rw e ((join-Sound (before colon argument) (after colon argument)).at n v w)
    ];
  }

  command_broadcast-Sound : (argument : Bytes) → Sound (command_broadcast env argument)
  unfolding command_broadcast results modify
  command_broadcast-Sound argument = record {
    at = λ n v w. elim (Bool-cases (is_connected env (n.store n.local_peer))) [
      | inl e ↦ rw e ((Sound-careful (Follows-broadcast_data {R = Careful} env argument)).at n v w)
      | inr e ↦ rw e (v, w)
    ];
  }

  run_line-Sound : (line : Bytes) → Sound (run_line env line)
  unfolding run_line
  run_line-Sound line =
      search
        (sound_rules, careful_rules, Follows-send_all, command_join-Sound, command_broadcast-Sound)
        depth 16

  complete_join-Sound : (error : Bool) (p : PeerRef) → Sound (complete_join env error p)
  unfolding complete_join
  complete_join-Sound error p =
      let check : Restores (check_for_new_peers env) = record {
        at = check_for_new_peers-IsCalm env;
      } in
      Sound-if error (Sound-careful (search careful_rules)) (
        Sound-Restores (Restores-modify _ (connect-IsFiled p) (Restores-modify _ (λ n v. v) check)))

  IsCalm-after :
      {A : Type 0} {m : Method A} (n n' : Network)
      → Sound m
      → IsCalm n
      → returned (m n) ≡ some n'
      → IsCalm n'
  IsCalm-after {A = A} {m = m} n n' s calm h = go (m n) (s.at n calm.0 calm.1) h
    where
      go : (out : Result A × Network) → Calms out → returned out ≡ some n' → IsCalm n'
      go (ok a, k) c e = let same_state : k ≡ n' = cc e in subst IsCalm same_state c
      go (throw x, k) c e = absurd (cc e)
      go (fault, k) c e = absurd (cc e)
      go (hang, k) c e = absurd (cc e)

  live-IsCalm : (i : Stimulus) (n n' : Network) → IsCalm n → live env i n ≡ some n' → IsCalm n'
  unfolding live
  live-IsCalm (received fuel error bytes p) n n' c h =
      IsCalm-after n n' (handle_incoming_message-Sound env fuel error bytes p) c h
  live-IsCalm (typed line) n n' c h = IsCalm-after n n' (run_line-Sound line) c h
  live-IsCalm (accepted error e) n n' c h = IsCalm-after n n' (handle_accept-Sound error e) c h
  live-IsCalm (fired ready_timer error p) n n' c h =
      IsCalm-after n n' (Sound-careful (Follows-send_ready {R = Careful} env error p)) c h
  live-IsCalm (fired join_timer error p) n n' c h =
      IsCalm-after n n' (complete_join-Sound error p) c h

  run_live-IsCalm :
      (inputs : List Stimulus) (n n' : Network)
      → IsCalm n
      → run_live env inputs n ≡ some n'
      → IsCalm n'
  unfolding run_live
  run_live-IsCalm [] n n' c h = let same_state : n ≡ n' = cc h in subst IsCalm same_state c
  run_live-IsCalm (i ∷ inputs) n n' c h = elim (Option-cases (live env i n)) [
    | inl e ↦ absurd (ground (arith, e))
    | inr (k, e) ↦ run_live-IsCalm inputs k n' (live-IsCalm i n k c e) (ground (arith, e))
  ]

  -- In every run of a node from its start in which the program goes on, whatever comes from outside and
  -- in whatever order: while the join token is free, each entry of `new_peers` holds a peer, and that
  -- peer has not asked to join.
  pub token_free_none_waits :
      (local : Peer) (inputs : List Stimulus) {n : Network}
      → run_live env inputs (make_network local) ≡ some n
      → n.join_token ≡ true
      → All (Idles n.store) n.new_peers
  unfolding make_network
  token_free_none_waits local inputs {n} h =
      (run_live-IsCalm inputs (make_network local) n
        (record { fresh = omega arith; sorted = tt; seated = tt }, λ t. tt) h).1
