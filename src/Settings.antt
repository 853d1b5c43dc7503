-- ===== src/Settings.antt =====
-- src/Config.cpp, include/Config.hpp: `init_settings`, which fills the settings from the command line
-- and a configuration file. Boost.Program_options is outside: what its two parsers leave in a
-- `variables_map` is a parameter, and `none` is an exception of theirs. What is printed is left out.
pub mod Sources
use rac_kun.Text.{Bytes, codes, bytes_less}
use rac_kun.Prelude.{ℕ, Bool, true, false, Option, none, some, [], if◌then◌else◌, ◌||◌}
use rac_kun.OrdMap.{OrdMap, find}
use rac_kun.Outcome.{Result, ok, throw, bad_any_cast}
use rac_kun.Exec.{Exec, pure, lift, modify, try_catch, ◌>>=◌, ◌>>◌}
use rac_kun.Utils.{extract_port, find_char, before, after, uninitialised}

pub record Settings : Type 0 where
  pub listen_port : ℕ
  pub entry_point_ip : Bytes
  pub entry_point_port : ℕ
  pub ui : Bool

-- The global object, before anything is written to it.
abbrev pub no_settings : Settings
no_settings = record { listen_port = 0; entry_point_ip = []; entry_point_port = 0; ui = false }

-- A `variable_value`, by the type of what it holds.
pub data Value : Type 0 where
  ushort_value : ℕ → Value
  string_value : Bytes → Value
  bool_value : Bool → Value

abbrev pub VariablesMap : Type 0
VariablesMap = OrdMap Bytes Value

abbrev pub present : Option Value → Bool
present none = false
present (some v) = true

-- `vars.count(name)`
abbrev pub given : Bytes → VariablesMap → Bool
given name vars = present (find name vars)

-- `as<unsigned short>`, `as<string>` and `as<bool>`; an absent value is an empty one.
abbrev pub as_ushort : Option Value → Result ℕ
as_ushort none = throw bad_any_cast
as_ushort (some (ushort_value n)) = ok n
as_ushort (some (string_value s)) = throw bad_any_cast
as_ushort (some (bool_value b)) = throw bad_any_cast

abbrev pub as_string : Option Value → Result Bytes
as_string none = throw bad_any_cast
as_string (some (ushort_value n)) = throw bad_any_cast
as_string (some (string_value s)) = ok s
as_string (some (bool_value b)) = throw bad_any_cast

abbrev pub as_bool : Option Value → Result Bool
as_bool none = throw bad_any_cast
as_bool (some (ushort_value n)) = throw bad_any_cast
as_bool (some (string_value s)) = throw bad_any_cast
as_bool (some (bool_value b)) = ok b

-- A map that is cleared when its parser raises.
abbrev pub or_cleared : Option VariablesMap → VariablesMap
or_cleared none = []
or_cleared (some vars) = vars

unfoldable pub config_file : VariablesMap → Result Bytes
config_file cmd_line_map =
    if given (codes "config_file") cmd_line_map
    then as_string (find (codes "config_file") cmd_line_map)
    else ok (codes "rac.conf")

-- The value on the command line, else the one in the file, else a default.
unfoldable pub choose :
    {A : Type 0} → (Option Value → Result A) → Bytes → A → VariablesMap → VariablesMap → Result A
choose as_type name default cmd_line_map conf_file_map =
    if given name cmd_line_map
    then as_type (find name cmd_line_map)
    else if given name conf_file_map
    then as_type (find name conf_file_map)
    else ok default

unfoldable pub set_listen_port : VariablesMap → VariablesMap → Exec Settings Unit
set_listen_port cmd_line_map conf_file_map = try_catch (do
  port ← lift (choose as_ushort (codes "listen_port") 0 cmd_line_map conf_file_map)
  modify (λ s. record s { listen_port = port }))

-- The text before the colon is the host; a port that cannot be read is 0.
unfoldable pub read_entry_point : Bytes → Exec Settings Unit
read_entry_point endpoint = do
  modify (λ s. record s { entry_point_ip = before (find_char b':' endpoint) endpoint })
  modify (λ s.
      let read = extract_port uninitialised (after (find_char b':' endpoint) endpoint) in
      record s { entry_point_port = if read.fail then 0 else read.port })

unfoldable pub set_entry_point : VariablesMap → VariablesMap → Exec Settings Unit
set_entry_point cmd_line_map conf_file_map =
    if given (codes "entry_point") cmd_line_map || given (codes "entry_point") conf_file_map
    then (do
      endpoint ← lift (
          if given (codes "entry_point") cmd_line_map
          then as_string (find (codes "entry_point") cmd_line_map)
          else as_string (find (codes "entry_point") conf_file_map))
      read_entry_point endpoint)
    else modify (λ s. record s { entry_point_port = 0 })

unfoldable pub set_ui : VariablesMap → VariablesMap → Exec Settings Unit
set_ui cmd_line_map conf_file_map = try_catch (do
  ui ← lift (choose as_bool (codes "ui") true cmd_line_map conf_file_map)
  modify (λ s. record s { ui = ui }))

-- Whether the program goes on; `help` stops it.
pub data Startup : Type 0 where
  returns exits : Startup

unfoldable pub fill_settings : VariablesMap → VariablesMap → Exec Settings Startup
fill_settings cmd_line_map conf_file_map = do
  set_listen_port cmd_line_map conf_file_map
  set_entry_point cmd_line_map conf_file_map
  set_ui cmd_line_map conf_file_map
  pure returns

unfoldable pub init_settings :
    Option VariablesMap → (Bytes → Option VariablesMap) → Exec Settings Startup
init_settings command_line parse_config_file =
    let cmd_line_map = or_cleared command_line in
    if given (codes "help") cmd_line_map then pure exits else (do
      file ← lift (config_file cmd_line_map)
      fill_settings cmd_line_map (or_cleared (parse_config_file file)))
