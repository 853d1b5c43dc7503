-- ===== src/Node.antt =====
-- src/Main.cpp and src/Listener.cpp: what the program does with the network besides the messages of
-- peers: lines typed at the console, accepted connections, and timers that fire.
pub mod Trail
pub mod History
pub mod Console
pub mod Local
pub mod Start
pub mod Token
pub mod Place
pub mod Readable
pub mod Accept
use rac_kun.Outcome.{ok, Result, throw, fault, hang, system_error}
use rac_kun.Network.Join.{allocate, complete_join, add_new_peer}
use rac_kun.OrdMap.{same}
use rac_kun.Network.Send.{send_ready, broadcast_data, send_all}
use rac_kun.Utils.{parse_input, find_char, before, after}
use rac_kun.Network.Handlers.{ReadError, handle_incoming_message, is_connected}
use rac_kun.Prelude.{
  ℕ, Bool, List, if◌then◌else◌, ◌∷◌, [], true, not, Option, some, none, ◌++◌, false,
}
use rac_kun.Utils.Display.{endl}
use rac_kun.Network.Print.{print, peer_state_name, Printer, print_rings, print_logs}
use rac_kun.Exec.{results, ◌>>=◌, ◌>>◌, pure, raise}
use rac_kun.Network.Join
use rac_kun.Peer.{new, PeerRef, is_known}
use rac_kun.Network.{ready_timer, join_timer, Timer, Endpoint, Env, Network, Method}
use rac_kun.Text.{bytes_less, Bytes, codes}

-- `Listener::handle_accept`, up to its call of `start_accept`. A new connection has a remote endpoint,
-- unless it was lost in the meantime: then `get_address`, which reads it, raises.
unfoldable pub handle_accept : Bool → Option Endpoint → Method Unit
handle_accept error none = if error then pure tt else raise system_error
handle_accept error (some e) = if error then pure tt else (do p ← allocate e; add_new_peer p)

-- What the command `help` prints.
abbrev help_text : Bytes
help_text =
    let line : Bytes → Bytes = λ text. text ++ endl in
    let tab : Bytes → Bytes = λ text. 9 ∷ text in
    line (codes "UI commands:")
    ++ (line (tab (codes "send <arg>"))
        ++ (line (tab (tab (codes "Send <arg> to all peers")))
            ++ (line (tab (codes "join <arg>"))
                ++ (line (tab (tab (codes "Join a session using <arg> as an entry point")))
                    ++ (line (tab (tab (codes "where <arg> is IP:port or hostname:port")))
                        ++ (line (tab (codes "broadcast <arg>"))
                            ++ (line (tab (tab (codes "Use rings to broadcast a message")))
                                ++ (line (tab (codes "rings"))
                                    ++ (line (
                                          tab (
                                            tab (
                                              codes
                                                "Display the constitution of the current rings")))
                                        ++ (line (tab (codes "logs"))
                                            ++ (line (
                                                  tab (
                                                    tab (
                                                      codes
                                                        "Print all the messages received up until now")))
                                                ++ (line (tab (codes "help"))
                                                    ++ (line (
                                                          tab (
                                                            tab (
                                                            codes
                                                            "Display all available commands")))
                                                        ++ (line (tab (codes "quit"))
                                                            ++ (line
                                                            (tab (tab (codes "Exit application")))
                                                            ++ endl)))))))))))))))

module _ (env : Env) where
  -- A command that prints. The text is left out of the state; an exception ends the loop.
  abbrev pub shows : (Network → Printer) → Method Unit
  shows f = results (λ n. (f n []).0)

  -- `cout`, with a line
  abbrev says : Bytes → Method Unit
  says text = shows (λ n. print (text ++ endl))

  abbrev says_state : Bytes → Method Unit
  says_state text =
      shows (λ n. print ((text ++ peer_state_name (n.store n.local_peer).state) ++ endl))

  -- The command `join`, with the host and the port on both sides of the colon.
  unfoldable pub command_join : Bytes → Method Unit
  command_join argument n =
      let colon = find_char b':' argument in
      let joined = Join.join env (before colon argument) (after colon argument) n in
      if is_known (n.store n.local_peer) then says_state (codes "Cannot join while ") n else joined

  unfoldable pub command_broadcast : Bytes → Method Unit
  command_broadcast argument n =
      if is_connected env (n.store n.local_peer)
      then broadcast_data env argument n
      else says_state (codes "Cannot broadcast while ") n

  -- A round of the console's loop; the result is `settings.UI`.
  unfoldable pub run_line : Bytes → Method Bool
  run_line line =
      let input = parse_input line in
      if same input.command (codes "send")
      then (do send_all env input.argument; pure true)
      else if same input.command (codes "join")
      then (do command_join input.argument; pure true)
      else if same input.command (codes "rings")
      then (do shows print_rings; pure true)
      else if same input.command (codes "broadcast")
      then (do command_broadcast input.argument; pure true)
      else if same input.command (codes "logs")
      then (do shows (λ n. print_logs n.logs); pure true)
      else if same input.command (codes "help")
      then (do shows (λ n. print help_text); pure true)
      else if same input.command (codes "quit")
      then pure false
      else (do says (codes "Invalid command."); pure true)

-- What happens to a node from outside.
pub data Stimulus : Type 0 where
  received : ℕ → ReadError → Bytes → PeerRef → Stimulus
  typed : Bytes → Stimulus
  accepted : Bool → Option Endpoint → Stimulus
  fired : Timer → Bool → PeerRef → Stimulus

-- The state after one input, however the code that it runs ends.
unfoldable pub react : Env → Stimulus → Network → Network
react env (received fuel error bytes p) n = (handle_incoming_message env fuel error bytes p n).1
react env (typed line) n = (run_line env line n).1
react env (accepted error e) n = (handle_accept error e n).1
react env (fired ready_timer error p) n = (send_ready env error p n).1
react env (fired join_timer error p) n = (complete_join env error p n).1

unfoldable pub run : Env → List Stimulus → Network → Network
run env [] n = n
run env (i ∷ inputs) n = run env inputs (react env i n)

-- The state after code that returns. A program that has met a fault, or an exception that nothing
-- catches, takes no more input.
abbrev pub returned : {A : Type 0} → Result A × Network → Option Network
returned (ok a, n) = some n
returned (throw e, n) = none
returned (fault, n) = none
returned (hang, n) = none

unfoldable pub live : Env → Stimulus → Network → Option Network
live env (received fuel error bytes p) n =
    returned (handle_incoming_message env fuel error bytes p n)
live env (typed line) n = returned (run_line env line n)
live env (accepted error e) n = returned (handle_accept error e n)
live env (fired ready_timer error p) n = returned (send_ready env error p n)
live env (fired join_timer error p) n = returned (complete_join env error p n)

-- A run in which the program goes on after every input.
unfoldable pub run_live : Env → List Stimulus → Network → Option Network
run_live env [] n = some n
run_live env (i ∷ inputs) n = elim (live env i n) [ none ↦ none | some n' ↦ run_live env inputs n' ]
