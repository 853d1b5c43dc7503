-- ===== src/Node/Place.antt =====
-- A connected node has a group, in every run.
use rac_kun.Exec.{results, modify}
use rac_kun.Node.{
  command_broadcast, handle_accept, run_line, command_join, run, react, Stimulus, is_connected,
  received, typed, accepted, fired, Option, some,
}
use rac_kun.Network.Place.{InPlace, Stays, Stays-IsPreorder, Stays-IsFrame, stays_rules, stays_same}
use rac_kun.Network.Place.Methods.{add_new_peer-Stays, join-Stays, complete_join-Stays}
use rac_kun.Network.Place.Reception.{handle_incoming_message-Stays}
use rac_kun.Network.Frame.Methods.{Follows-broadcast_data, Follows-send_ready, Follows-send_all}
use rac_kun.Network.{ready_timer, join_timer, Endpoint, Env, make_network, Network}
use rac_kun.Exec.Follows.{Follows}
use rac_kun.Peer.{Peer, PeerRef, is_known, connected, new}
use rac_kun.Text.{Bytes}
use rac_kun.Utils.{find_char, before, after}
use mathlib.Core.Path.{sym, subst}
use rac_kun.Prelude.{
  arith, List, [], ◌∷◌, Bool, Bool-cases, inl, inr, refl, ◌≡◌, ◌≢◌, All, none, ℕ, ◌∙◌,
}

-- Reads and timers are of other peers: the local peer, at reference 0, has no socket.
abbrev pub FromOutside : Stimulus → Type 0
FromOutside (received fuel error bytes p) = p ≢ 0
FromOutside (typed line) = Unit
FromOutside (accepted error e) = Unit
FromOutside (fired t error p) = p ≢ 0

-- The node is in its place, and its local peer is at reference 0.
record Steady (n : Network) : Type 0 where
  at_zero : n.local_peer ≡ 0
  steady : InPlace n

Steady-Stays : {p : PeerRef} {n n' : Network} → p ≢ 0 → Steady n → Stays p n n' → Steady n'
Steady-Stays other v h = record {
  at_zero = h.same_local ∙ v.at_zero;
  steady = h.in_place (λ e. other (e ∙ v.at_zero)) v.steady;
}

one_ne : ◌≢◌ {A = ℕ} 1 0
one_ne h = omega (arith, h)

new_connected : new ≢ connected
new_connected h = cc

module _ (env : Env) where
  handle_accept-Stays :
      {q : PeerRef} (error : Bool) (e : Option Endpoint) → Follows (Stays q) (handle_accept error e)
  unfolding handle_accept
  handle_accept-Stays error none = search stays_rules depth 12
  handle_accept-Stays error (some e) = search (stays_rules, add_new_peer-Stays) depth 12

  command_join-Stays :
      {q : PeerRef} (argument : Bytes) → Follows (Stays q) (command_join env argument)
  unfolding command_join results modify
  command_join-Stays argument = record {
    at = λ n. elim (Bool-cases (is_known (n.store n.local_peer))) [
      | inl e ↦ rw e (stays_same refl refl refl)
      | inr e ↦
          let colon = find_char b':' argument in
          rw e ((join-Stays env (before colon argument) (after colon argument)).at n)
    ];
  }

  command_broadcast-Stays :
      {q : PeerRef} (argument : Bytes) → Follows (Stays q) (command_broadcast env argument)
  unfolding command_broadcast results modify
  command_broadcast-Stays {q = q} argument = record {
    at = λ n. elim (Bool-cases (is_connected env (n.store n.local_peer))) [
      | inl e ↦ rw e ((Follows-broadcast_data {R = Stays q} env argument).at n)
      | inr e ↦ rw e (stays_same refl refl refl)
    ];
  }

  run_line-Stays : {q : PeerRef} (line : Bytes) → Follows (Stays q) (run_line env line)
  unfolding run_line
  run_line-Stays line =
      search (stays_rules, Follows-send_all, command_join-Stays, command_broadcast-Stays) depth 16

  react-Steady : (i : Stimulus) (n : Network) → FromOutside i → Steady n → Steady (react env i n)
  unfolding react
  react-Steady (received fuel error bytes p) n other v =
      Steady-Stays other v ((handle_incoming_message-Stays env fuel error bytes p).at n)
  react-Steady (typed line) n other v = Steady-Stays one_ne v ((run_line-Stays {q = 1} line).at n)
  react-Steady (accepted error e) n other v =
      Steady-Stays one_ne v ((handle_accept-Stays {q = 1} error e).at n)
  react-Steady (fired ready_timer error p) n other v =
      Steady-Stays other v ((Follows-send_ready {R = Stays p} env error p).at n)
  react-Steady (fired join_timer error p) n other v =
      Steady-Stays other v ((complete_join-Stays env error p).at n)

  run-Steady :
      (inputs : List Stimulus) (n : Network)
      → All FromOutside inputs
      → Steady n
      → Steady (run env inputs n)
  unfolding run
  run-Steady [] n other v = v
  run-Steady (i ∷ inputs) n other v =
      run-Steady inputs (react env i n) other.1 (react-Steady i n other.0 v)

  -- In every run of a node from its start with a local peer that is NEW, in which reads and timers are
  -- of other peers, in whatever order and however the code that they run ends, the local peer is
  -- connected only while the node has a local group.
  pub connected_has_group :
      (local : Peer) (inputs : List Stimulus) {n : Network}
      → local.state ≡ new
      → All FromOutside inputs
      → run env inputs (make_network local) ≡ n
      → (n.store n.local_peer).state ≡ connected
      → n.local_group ≢ none
  unfolding make_network
  connected_has_group local inputs fresh other h =
      (subst Steady h (
        run-Steady inputs (make_network local) other
          (record { at_zero = refl; steady = λ c z. new_connected (sym fresh ∙ c) }))).steady
