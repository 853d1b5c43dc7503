-- ===== src/Node/Readable.antt =====
-- The command `logs` in a run whose inputs are proper, and in a run behind a message that cannot be read.
use rac_kun.Node.Trail.{run_steps}
use rac_kun.Network.Print.Laws.{IsReadable}
use rac_kun.Message.Readable.{Parses}
use rac_kun.Network.Retained.{messages, Retains}
use rac_kun.Node.Console.{logs_returns_iff}
use rac_kun.Network.Wide.Join.{
  allocate-Widens, add_new_peer-Widens, complete_join-Widens, join-Widens,
}
use rac_kun.Network.Wide.Incoming.{handle_incoming_message-Widens, Proper}
use rac_kun.Exec.Follows.{Follows}
use rac_kun.Message.{Message, parse_message, id_length, key_length}
use rac_kun.Network.Wide.Methods.{
  Digests, widens_rules, send_all-Widens, broadcast_data-Widens, send_ready-Widens,
}
use rac_kun.Prelude.{
  List, length, ◌≡◌, [], arith, Bool-cases, inl, inr, All, ◌≢◌, subst, Option, none,
}
use rac_kun.Node.{
  Stimulus, received, run, run_line, command_broadcast, handle_accept, react, ◌∷◌, command_join,
  Bool, is_known, ok, typed, is_connected, codes, accepted, fired, true, find_char, before, after,
  Option, some,
}
use rac_kun.Network.History.{IsLogged}
use rac_kun.Peer.{Peer}
use rac_kun.Text.{Bytes}
use rac_kun.Network.{make_network, Env, Network, MessageLog, Endpoint, ready_timer, join_timer}
use rac_kun.Network.Retained.{Retains, Retains-IsPreorder, Retains-IsFrame, Retains-IsTrail}
use rac_kun.Network.Wide.{Widens-IsPreorder, Named, Widens, Wide}
use rac_kun.Exec.{results, modify}

-- What comes from outside is proper: of the messages that can be parsed, a JOIN Acknowledgement names a
-- group by its full id, and a READY Notification comes from a peer that is known; a join timer is of a
-- peer that is known.
abbrev pub Admits : Network → Stimulus → Type 0
Admits n (received fuel error bytes p) =
    (m : Message) → parse_message bytes ≡ ok m → Proper m.body (n.store p)
Admits n (typed line) = Unit
Admits n (accepted error e) = Unit
Admits n (fired ready_timer error p) = Unit
Admits n (fired join_timer error p) = is_known (n.store p) ≡ true

-- Every input is proper in the state that it meets.
abbrev pub IsProperRun : Env → List Stimulus → Network → Type 0
IsProperRun env [] n = Unit
IsProperRun env (i ∷ inputs) n = Admits n i × IsProperRun env inputs (react env i n)

module _ (env : Env) (digests : Digests env) where
  handle_accept-Widens :
      (error : Bool) (e : Option Endpoint) → Follows Widens (handle_accept error e)
  unfolding handle_accept
  handle_accept-Widens error none =
      search (widens_rules, allocate-Widens, add_new_peer-Widens) depth 12
  handle_accept-Widens error (some e) =
      search (widens_rules, allocate-Widens, add_new_peer-Widens) depth 12

  command_join-Widens : (argument : Bytes) → Follows Widens (command_join env argument)
  unfolding command_join results modify
  command_join-Widens argument = record {
    at = λ n. elim (Bool-cases (is_known (n.store n.local_peer))) [
      | inl e ↦ rw e (λ w. w)
      | inr e ↦
          let colon = find_char b':' argument in
          rw e ((join-Widens env digests (before colon argument) (after colon argument)).at n)
    ];
  }

  command_broadcast-Widens : (argument : Bytes) → Follows Widens (command_broadcast env argument)
  unfolding command_broadcast results modify
  command_broadcast-Widens argument = record {
    at = λ n. elim (Bool-cases (is_connected env (n.store n.local_peer))) [
      | inl e ↦ rw e ((broadcast_data-Widens env argument digests).at n)
      | inr e ↦ rw e (λ w. w)
    ];
  }

  run_line-Widens : (line : Bytes) → Follows Widens (run_line env line)
  unfolding run_line
  run_line-Widens line =
      search (widens_rules, send_all-Widens, command_join-Widens, command_broadcast-Widens) depth 16

  react-Widens : (i : Stimulus) (n : Network) → Admits n i → Widens n (react env i n)
  unfolding react
  react-Widens (received fuel error bytes p) n proper =
      handle_incoming_message-Widens env digests fuel error bytes p n proper
  react-Widens (typed line) n proper = (run_line-Widens line).at n
  react-Widens (accepted error e) n proper = (handle_accept-Widens error e).at n
  react-Widens (fired ready_timer error p) n proper = (send_ready-Widens env error p digests).at n
  react-Widens (fired join_timer error p) n proper =
      complete_join-Widens env digests error p n proper

  run-Widens :
      (inputs : List Stimulus) (n : Network)
      → IsProperRun env inputs n
      → Widens n (run env inputs n)
  unfolding run
  run-Widens [] n proper w = w
  run-Widens (i ∷ inputs) n proper w =
      run-Widens inputs (react env i n) proper.1 (react-Widens i n proper.0 w)

make_network-Wide : (local : Peer) → Named local → Wide (make_network local)
unfolding make_network
make_network-Wide local v = record {
  fresh = omega arith;
  own = v;
  named = λ p h. v;
  housed = λ h. cc;
  readable = tt;
}

-- In every run of a node from its start with a local peer whose id has 20 bytes and whose key has 5, if
-- every hash has 20 bytes and every input is proper in the state that it meets, the command `logs`
-- returns: every message in the log can be parsed. An input is proper unless it is a message read as a
-- JOIN Acknowledgement that does not name its group by 20 bytes, a message read as a READY Notification of
-- a peer that is not known, or a join timer of such a peer.
pub logs_returns :
    (env : Env) (local : Peer) (inputs : List Stimulus)
    → Digests env
    → length local.id ≡ id_length
    → length local.pub_id_key ≡ key_length
    → IsProperRun env inputs (make_network local)
    → (run_line env (codes "logs") (run env inputs (make_network local))).0 ≡ ok true
logs_returns env local inputs digests wide_id wide_key proper =
    let n = make_network local in
    (logs_returns_iff env (run env inputs n)).1
      (run-Widens env digests inputs n proper
        (make_network-Wide local (wide_id, wide_key))).readable

All-IsLogged :
    (ls : List MessageLog) (s : Bytes) → All IsReadable ls → IsLogged s (messages ls) → Parses s
All-IsLogged [] s h k = absurd k
All-IsLogged (l ∷ ls) s h (inl e) = subst Parses e h.0
All-IsLogged (l ∷ ls) s h (inr k) = All-IsLogged ls s h.1 k

-- From a state in which a message that cannot be parsed is in the log, the command `logs` does not return
-- in any run, in whatever order the inputs come and however the code that they run ends.
pub unreadable_ends_logs :
    (env : Env) (s : Bytes) (inputs : List Stimulus) (n : Network)
    → IsLogged s (messages n.logs)
    → ¬ Parses s
    → (run_line env (codes "logs") (run env inputs n)).0 ≢ ok true
unreadable_ends_logs env s inputs n logged unread returns =
    let kept = (run_steps Retains env inputs n).retained s logged in
    unread (All-IsLogged _ s ((logs_returns_iff env (run env inputs n)).0 returns) kept)
