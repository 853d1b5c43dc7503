-- ===== src/Node/Start.antt =====
-- `main` of src/Main.cpp up to its loop, with the constructor of src/Listener.cpp, and the loop of the
-- console over the lines typed. The thread of the io_service is outside: it runs what Node's `react`
-- says, and here it takes no step between the lines.
pub mod Laws
use rac_kun.Text.{Bytes}
use rac_kun.Prelude.{ℕ, Bool, Option, none, some, List, [], ◌∷◌, if◌then◌else◌, ◌==◌, false}
use rac_kun.Outcome.{Result, ok, throw, fault, hang, system_error}
use rac_kun.Exec.{◌>>=◌, pure}
use rac_kun.Utils.{itos}
use rac_kun.Settings.{Settings, VariablesMap, Startup, returns, exits, init_settings, no_settings}
use rac_kun.Network.{Env, Network, Method, make_network}
use rac_kun.Network.Join
use rac_kun.Node.{run_line}
use rac_kun.Node.Local.{create_local_peer}

-- What `main` asks of the libraries and the machine: the two parsers, the port that an acceptor gets
-- if it can have the one it asks for, what `gethostname` writes, and random numbers.
pub record Machine : Type 0 where
  pub command_line : Option VariablesMap
  pub parse_config_file : Bytes → Option VariablesMap
  pub bound_port : ℕ → Option ℕ
  pub host_name : Bytes
  pub rand : ℕ → ℕ
  pub env : Env

pub record RunningNode : Type 0 where
  pub settings : Settings
  pub network : Network

-- `Listener(io_service, network)`; the port that it gets is written back to the settings.
unfoldable pub open_listener : Machine → Settings → Result Settings
open_listener machine s = elim (machine.bound_port s.listen_port) [
  | none ↦ throw system_error
  | some port ↦ ok (record s { listen_port = port })
]

-- The environment of the network, in which the settings are global.
abbrev pub env_of : Machine → Settings → Env
env_of machine s = record machine.env { listen_port = s.listen_port }

-- The join to an entry point of the settings; port 0 is none.
unfoldable pub join_entry_point : Machine → Settings → Method Unit
join_entry_point machine s =
    if s.entry_point_port == 0
    then pure tt
    else Join.join (env_of machine s) s.entry_point_ip (itos s.entry_point_port)

abbrev pub launched : Settings → Result (Unit {0}) × Network → Result (Option RunningNode)
launched s (ok tt, n) = ok (some (record { settings = s; network = n }))
launched s (throw e, n) = throw e
launched s (fault, n) = fault
launched s (hang, n) = hang

abbrev pub launch : Machine → Settings → Result (Option RunningNode)
launch machine s =
    launched s
      (join_entry_point machine s (make_network (create_local_peer machine.host_name machine.rand)))

abbrev pub listen_and_launch : Machine → Result Startup × Settings → Result (Option RunningNode)
listen_and_launch machine (ok returns, s) =
    rac_kun.Outcome.◌>>=◌ (open_listener machine s) (launch machine)
listen_and_launch machine (ok exits, s) = ok none
listen_and_launch machine (throw e, s) = throw e
listen_and_launch machine (fault, s) = fault
listen_and_launch machine (hang, s) = hang

-- The node at the start of the loop; `none` if the program has ended before.
unfoldable pub start : Machine → Result (Option RunningNode)
start machine =
    listen_and_launch machine
      (init_settings machine.command_line machine.parse_config_file no_settings)

-- `while (settings.UI)`, over the lines that have been typed; the result is `settings.UI`.
unfoldable pub console : Env → List Bytes → Bool → Method Bool
console env [] ui = pure ui
console env (line ∷ lines) ui =
    let rest : Method Bool = run_line env line >>= console env lines in
    if ui then rest else pure false
