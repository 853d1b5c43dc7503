-- ===== src/Node/Trail.antt =====
-- What holds between the states of a run, for a relation on the log, the local group and the groups.
use rac_kun.Exec.{results, modify}
use rac_kun.Network.Frame.Methods.{Follows-broadcast_data, Follows-send_ready, Follows-send_all}
use rac_kun.Prelude.{Bool-cases, [], inl, inr, refl, none}
use rac_kun.Exec.Follows.{Follows}
use rac_kun.Node.{
  Option, command_broadcast, handle_accept, run_line, command_join, run, react, List, Stimulus,
  Bytes, Bool, received, ◌∷◌, is_connected, before, typed, find_char, accepted, after, fired,
  is_known, Option, some,
}
use rac_kun.Network.{ready_timer, join_timer, Endpoint, Env, Network}
use rac_kun.Network.Trail.{
  IsTrail, trail_rules, Follows-allocate, Follows-add_new_peer, Follows-complete_join, Follows-join,
}
use rac_kun.Network.Trail.Reception.{Follows-handle_incoming_message}
use rac_kun.Network.Frame.{IsFrame, Kept-same}
use rac_kun.Exec.Follows.{IsPreorder}

module _ {R : Network → Network → Type 0} ⦃o : IsPreorder R⦄ ⦃k : IsFrame R⦄ ⦃t : IsTrail R⦄
    (env : Env) where
  Follows-handle_accept : (error : Bool) (e : Option Endpoint) → Follows R (handle_accept error e)
  unfolding handle_accept
  Follows-handle_accept error none =
      search (trail_rules, Follows-allocate, Follows-add_new_peer) depth 12
  Follows-handle_accept error (some e) =
      search (trail_rules, Follows-allocate, Follows-add_new_peer) depth 12

  Follows-command_join : (argument : Bytes) → Follows R (command_join env argument)
  unfolding command_join results modify
  Follows-command_join argument = record {
    at = λ n. elim (Bool-cases (is_known (n.store n.local_peer))) [
      | inl e ↦ rw e (t.of_kept refl (Kept-same refl refl))
      | inr e ↦
          let colon = find_char b':' argument in
          rw e ((Follows-join {R = R} env (before colon argument) (after colon argument)).at n)
    ];
  }

  Follows-command_broadcast : (argument : Bytes) → Follows R (command_broadcast env argument)
  unfolding command_broadcast results modify
  Follows-command_broadcast argument = record {
    at = λ n. elim (Bool-cases (is_connected env (n.store n.local_peer))) [
      | inl e ↦ rw e ((Follows-broadcast_data {R = R} env argument).at n)
      | inr e ↦ rw e (t.of_kept refl (Kept-same refl refl))
    ];
  }

  Follows-run_line : (line : Bytes) → Follows R (run_line env line)
  unfolding run_line
  Follows-run_line line =
      search (trail_rules, Follows-send_all, Follows-command_join, Follows-command_broadcast) depth
        16

module _ (R : Network → Network → Type 0) ⦃o : IsPreorder R⦄ ⦃k : IsFrame R⦄ ⦃t : IsTrail R⦄
    (env : Env) where
  react_step : (i : Stimulus) (n : Network) → R n (react env i n)
  unfolding react
  react_step (received fuel error bytes p) n =
      (Follows-handle_incoming_message {R = R} env fuel error bytes p).at n
  react_step (typed line) n = (Follows-run_line {R = R} env line).at n
  react_step (accepted error e) n = (Follows-handle_accept {R = R} env error e).at n
  react_step (fired ready_timer error p) n = (Follows-send_ready {R = R} env error p).at n
  react_step (fired join_timer error p) n = (Follows-complete_join {R = R} env error p).at n

  pub run_steps : (inputs : List Stimulus) (n : Network) → R n (run env inputs n)
  unfolding run
  run_steps [] n = t.of_kept refl (Kept-same refl refl)
  run_steps (i ∷ inputs) n =
      o.trans n (react env i n) (run env inputs (react env i n)) (react_step i n)
        (run_steps inputs (react env i n))
