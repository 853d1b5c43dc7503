-- ===== src/Examples/Starts.antt =====
-- A node that starts with an entry point on the command line, and its console.
use rac_kun.Utils.Split.{Lacks}
use rac_kun.Node.Start.{Machine, start, launched, env_of}
use rac_kun.Node.Start.Laws.{start_joins}
use rac_kun.Settings.{
  VariablesMap, string_value, bool_value, init_settings, no_settings, returns, Settings, given,
}
use rac_kun.Settings.Sources.{Contents, Holds, init_settings-settings_from, settings_from}
use rac_kun.Examples.Nodes.{env}
use rac_kun.Network.Join
use rac_kun.Network.{make_network}
use rac_kun.Node.Local.{create_local_peer}
use rac_kun.OrdMap.{find}
use rac_kun.Outcome.{ok}
use rac_kun.Text.{codes, bytes_less, lt_bytes, Bytes}
use rac_kun.Utils.{itos}
use rac_kun.Prelude.{◌≡◌, refl, ◌∷◌, [], some, none, false, ◌++◌, arith, ◌≢◌, ℕ}

abbrev entry_point : Bytes
entry_point = codes "lan" ++ b':' ∷ itos 1764

abbrev cmd_line_map : VariablesMap
cmd_line_map = (codes "entry_point", string_value entry_point) ∷ []

abbrev on_line : Contents
on_line = record {
  config_file = none;
  listen_port = none;
  entry_point = some entry_point;
  ui = none;
}

cmd_line_map-Holds : Holds cmd_line_map on_line
unfolding find lt_bytes
cmd_line_map-Holds = record {
  config_file = refl;
  listen_port = refl;
  entry_point = refl;
  ui = refl;
}

-- The file asks for no console.
abbrev conf_file_map : VariablesMap
conf_file_map = (codes "ui", bool_value false) ∷ []

abbrev in_file : Contents
in_file = record { config_file = none; listen_port = none; entry_point = none; ui = some false }

conf_file_map-Holds : Holds conf_file_map in_file
unfolding find lt_bytes
conf_file_map-Holds = record {
  config_file = refl;
  listen_port = refl;
  entry_point = refl;
  ui = refl;
}

no_help : given (codes "help") cmd_line_map ≡ false
unfolding find lt_bytes
no_help = refl

init_settings-settings_from_example :
    init_settings (some cmd_line_map) (λ file. some conf_file_map) no_settings
    ≡ (ok returns, settings_from on_line in_file no_settings)
init_settings-settings_from_example =
    init_settings-settings_from (some cmd_line_map) (λ file. some conf_file_map) on_line in_file
      no_settings no_help cmd_line_map-Holds conf_file_map-Holds

abbrev machine : Machine
machine = record {
  command_line = some cmd_line_map;
  parse_config_file = λ file. some conf_file_map;
  bound_port = λ port. some 4321;
  host_name = codes "node";
  rand = λ i. i;
  env = env;
}

abbrev settings : Settings
settings = record {
  listen_port = 4321;
  entry_point_ip = codes "lan";
  entry_point_port = 1764;
  ui = false;
}

no_colon : Lacks b':' (codes "lan")
no_colon = ((λ h. omega (arith, h)), ((λ h. omega (arith, h)), ((λ h. omega (arith, h)), tt)))

nonzero : ◌≢◌ {A = ℕ} 1764 0
nonzero h = omega (arith, h)

start_joins_example :
    start machine
    ≡ launched settings (
        Join.join
          (env_of machine settings)
          (codes "lan")
          (itos 1764)
          (make_network (create_local_peer (codes "node") (λ i. i))))
start_joins_example =
    start_joins machine on_line in_file (codes "lan") 1764 4321 no_help cmd_line_map-Holds
      conf_file_map-Holds refl no_colon (omega arith) nonzero refl
