-- ===== src/Node/Start/Laws.antt =====
-- What a node starts with, and what its console does with the lines that it reads.
use rac_kun.Node.Start.{Machine, start, console, join_entry_point, open_listener, launched, env_of}
use rac_kun.Settings.{or_cleared, given, read_entry_point, Settings, no_settings}
use rac_kun.Settings.Sources.{Contents, Holds, prefer, or_else, init_settings-settings_from, entry}
use rac_kun.Utils.Split.{Lacks, split_at}
use rac_kun.Utils.Decimal.{extract_port-itos}
use rac_kun.Utils.{itos, port_max, find_char, parse_input, uninitialised}
use rac_kun.Network.{make_network, Env, Network}
use rac_kun.Network.Join
use rac_kun.Node.Local.{create_local_peer}
use rac_kun.Node.{run_line, Option}
use rac_kun.Text.{Bytes, codes, bytes_less, lt_bytes}
use rac_kun.Exec.{◌>>=◌, continue, pure}
use rac_kun.Outcome.{ok}
use mathlib.Core.Path.{fun_ext}
use rac_kun.Prelude.{
  ◌++◌, ◌∷◌, [], some, false, true, ◌≡◌, ◌≢◌, ◌≤◌, ap, List, All, ℕ, Bool, refl, arith, ◌==◌,
}

-- An entry point that is a host and a printed port is read back.
read_entry_point-itos :
    (host : Bytes) (port : ℕ) (s : Settings)
    → Lacks b':' host
    → port ≤ port_max
    → read_entry_point (host ++ b':' ∷ itos port) s
      ≡ (ok tt, record s { entry_point_ip = host; entry_point_port = port })
unfolding read_entry_point ◌>>=◌
read_entry_point-itos host port s h fits =
    let (left, right) = split_at b':' host (itos port) h in
    rw (left, right, extract_port-itos uninitialised port fits) refl

entry-itos :
    (endpoint : Option Bytes) (host : Bytes) (port : ℕ) (s : Settings)
    → endpoint ≡ some (host ++ b':' ∷ itos port)
    → Lacks b':' host
    → port ≤ port_max
    → entry endpoint s ≡ record s { entry_point_ip = host; entry_point_port = port }
entry-itos endpoint host port s e lacks fits =
    rw e (ap (λ r. r.1) (read_entry_point-itos host port s lacks fits))

open_listener-bound :
    (machine : Machine) (s : Settings) (bound : ℕ)
    → machine.bound_port s.listen_port ≡ some bound
    → open_listener machine s ≡ ok (record s { listen_port = bound })
unfolding open_listener
open_listener-bound machine s bound e = rw (e, open_listener) refl

-- If every value in the two maps has the type that its option is declared with, no help is asked for,
-- the entry point is a host without a colon, a colon and a printed port from 1 to 65535, and the
-- acceptor gets a port, then the program reaches its loop through the join to that host and port of a
-- new node, whose settings have the port that the acceptor got.
pub start_joins :
    (machine : Machine) (c d : Contents) (host : Bytes) (port bound : ℕ)
    → given (codes "help") (or_cleared machine.command_line) ≡ false
    → Holds (or_cleared machine.command_line) c
    → Holds (or_cleared (machine.parse_config_file (or_else (codes "rac.conf") c.config_file))) d
    → prefer c.entry_point d.entry_point ≡ some (host ++ b':' ∷ itos port)
    → Lacks b':' host
    → port ≤ port_max
    → port ≢ 0
    → machine.bound_port (or_else 0 (prefer c.listen_port d.listen_port)) ≡ some bound
    → let s : Settings = record {
      listen_port = bound;
      entry_point_ip = host;
      entry_point_port = port;
      ui = or_else true (prefer c.ui d.ui);
    } in
      start machine
      ≡ launched s (
          Join.join
            (env_of machine s)
            host
            (itos port)
            (make_network (create_local_peer machine.host_name machine.rand)))
unfolding start join_entry_point
start_joins machine c d host port bound help h k e lacks fits positive b =
    let mine = entry-itos (prefer c.entry_point d.entry_point) host port no_settings e lacks fits in
    let found : Settings = record {
      listen_port = or_else 0 (prefer c.listen_port d.listen_port);
      entry_point_ip = host;
      entry_point_port = port;
      ui = or_else true (prefer c.ui d.ui);
    } in
    let some_port : (port == 0) ≡ false = ground (arith, positive) in
    rw
      (
        init_settings-settings_from machine.command_line machine.parse_config_file c d no_settings
            help h k,
        mine,
        open_listener-bound machine found bound b,
        some_port,
      )
      refl

quits :
    (env : Env) (line : Bytes) (n : Network)
    → (parse_input line).command ≡ codes "quit"
    → run_line env line n ≡ (ok false, n)
unfolding run_line lt_bytes pure
quits env line n e = rw e refl

console_stopped :
    (env : Env) (lines : List Bytes) (n : Network) → console env lines false n ≡ (ok false, n)
unfolding console pure
console_stopped env [] n = refl
console_stopped env (line ∷ lines) n = refl

-- Nothing that is typed behind a line with the command "quit" has an effect.
pub console-quit :
    (env : Env) (lines rest : List Bytes) (line : Bytes) (ui : Bool) (n : Network)
    → (parse_input line).command ≡ codes "quit"
    → console env (lines ++ line ∷ rest) ui n ≡ console env (lines ++ line ∷ []) ui n
unfolding console ◌>>=◌
console-quit env [] rest line false n e = refl
console-quit env [] rest line true n e = rw (quits env line n e, console_stopped env rest n) refl
console-quit env (l ∷ lines) rest line false n e = refl
console-quit env (l ∷ lines) rest line true n e =
    ap (λ f. continue (run_line env l n).0 f (run_line env l n).1)
      (fun_ext (λ ui. fun_ext (λ n'. console-quit env lines rest line ui n' e)))

-- Empty lines, which are what `getline` leaves at the end of the input, neither end the loop nor have
-- an effect, however many there are.
pub console_idle :
    (env : Env) (lines : List Bytes) (n : Network)
    → All (λ line. line ≡ []) lines
    → console env lines true n ≡ (ok true, n)
unfolding console run_line ◌>>=◌ parse_input lt_bytes find_char
console_idle env [] n e = refl
console_idle env (line ∷ lines) n e = rw (e.0) (console_idle env lines n e.1)
