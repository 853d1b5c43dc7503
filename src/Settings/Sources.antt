-- ===== src/Settings/Sources.antt =====
-- Where `init_settings` takes a setting from: the contents of the two maps, by the types that the
-- options are declared with.
use rac_kun.Text.{Bytes, codes, bytes_less}
use rac_kun.Prelude.{ℕ, Bool, true, false, Option, none, some, ◌≡◌, refl, ap}
use rac_kun.OrdMap.{find}
use mathlib.Core.Option
use rac_kun.Outcome.{ok, Result}
use rac_kun.Exec.{◌>>=◌, try_catch}
use rac_kun.Settings.{
  Settings, VariablesMap, Value, init_settings, fill_settings, present, given, or_cleared, choose,
  as_ushort, as_bool, ushort_value, bool_value, string_value, config_file, set_ui, set_listen_port,
  set_entry_point, read_entry_point, returns,
}

-- What a map may hold.
pub record Contents : Type 0 where
  pub config_file : Option Bytes
  pub listen_port : Option ℕ
  pub entry_point : Option Bytes
  pub ui : Option Bool

-- Each value has the type that its option is declared with.
pub record Holds (vars : VariablesMap) (c : Contents) : Type 0 where
  pub config_file : find (codes "config_file") vars ≡ Option.map string_value c.config_file
  pub listen_port : find (codes "listen_port") vars ≡ Option.map ushort_value c.listen_port
  pub entry_point : find (codes "entry_point") vars ≡ Option.map string_value c.entry_point
  pub ui : find (codes "ui") vars ≡ Option.map bool_value c.ui

-- The specification: the command line first, then the file, then the default.
abbrev pub prefer : {A : Type 0} → Option A → Option A → Option A
prefer none b = b
prefer (some a) b = some a

abbrev pub or_else : {A : Type 0} → A → Option A → A
or_else a none = a
or_else a (some b) = b

abbrev pub entry : Option Bytes → Settings → Settings
entry none s = record s { entry_point_port = 0 }
entry (some endpoint) s = (read_entry_point endpoint s).1

abbrev pub settings_from : Contents → Contents → Settings → Settings
settings_from c d s = record (entry (prefer c.entry_point d.entry_point) s) {
  listen_port = or_else 0 (prefer c.listen_port d.listen_port);
  ui = or_else true (prefer c.ui d.ui);
}

given-present :
    (name : Bytes) (vars : VariablesMap) {o : Option Value}
    → find name vars ≡ o
    → given name vars ≡ present o
given-present name vars e = ap present e

choose-prefer :
    {A : Type 0} (as_type : Option Value → Result A) (make : A → Value) (name : Bytes) (default : A)
    (a b : Option A) (cmd conf : VariablesMap)
    → ((x : A) → as_type (some (make x)) ≡ ok x)
    → find name cmd ≡ Option.map make a
    → find name conf ≡ Option.map make b
    → choose as_type name default cmd conf ≡ ok (or_else default (prefer a b))
unfolding choose
choose-prefer as_type make name default none none cmd conf h e k =
    rw (given-present _ cmd e, given-present _ conf k) refl
choose-prefer as_type make name default none (some b) cmd conf h e k =
    rw (given-present _ cmd e, given-present _ conf k, k) (h b)
choose-prefer as_type make name default (some a) b cmd conf h e k =
    rw (given-present _ cmd e, e) (h a)

set_entry_point-entry :
    (a b : Option Bytes) (cmd conf : VariablesMap) (s : Settings)
    → find (codes "entry_point") cmd ≡ Option.map string_value a
    → find (codes "entry_point") conf ≡ Option.map string_value b
    → set_entry_point cmd conf s ≡ (ok tt, entry (prefer a b) s)
unfolding set_entry_point ◌>>=◌ read_entry_point
set_entry_point-entry none none cmd conf s e k =
    rw (given-present _ cmd e, given-present _ conf k) refl
set_entry_point-entry none (some b) cmd conf s e k =
    rw (given-present _ cmd e, given-present _ conf k, k) refl
set_entry_point-entry (some a) b cmd conf s e k = rw (given-present _ cmd e, e) refl

config_file-or_else :
    (a : Option Bytes) (cmd : VariablesMap)
    → find (codes "config_file") cmd ≡ Option.map string_value a
    → config_file cmd ≡ ok (or_else (codes "rac.conf") a)
unfolding config_file
config_file-or_else none cmd e = rw (given-present _ cmd e) refl
config_file-or_else (some a) cmd e = rw (given-present _ cmd e, e) refl

entry_kept :
    (o : Option Bytes) (port : ℕ) (s : Settings)
    → entry o (record s { listen_port = port }) ≡ record (entry o s) { listen_port = port }
unfolding read_entry_point ◌>>=◌
entry_kept none port s = refl
entry_kept (some endpoint) port s = refl

fill_settings-settings_from :
    (c d : Contents) (cmd conf : VariablesMap) (s : Settings)
    → Holds cmd c
    → Holds conf d
    → fill_settings cmd conf s ≡ (ok returns, settings_from c d s)
unfolding fill_settings ◌>>=◌ set_listen_port set_ui try_catch
fill_settings-settings_from c d cmd conf s h k =
    let lp =
      choose-prefer as_ushort ushort_value (codes "listen_port") 0 c.listen_port d.listen_port cmd
        conf (λ x. refl) h.listen_port k.listen_port in
    let ui =
      choose-prefer as_bool bool_value (codes "ui") true c.ui d.ui cmd conf (λ x. refl) h.ui k.ui in
    let mid = record s { listen_port = or_else 0 (prefer c.listen_port d.listen_port) } in
    let e =
      set_entry_point-entry c.entry_point d.entry_point cmd conf mid h.entry_point k.entry_point in
    rw (lp, ui, e, entry_kept (prefer c.entry_point d.entry_point) mid.listen_port s) refl

-- If every value in the two maps has the type that its option is declared with, and no help is asked
-- for, `init_settings` returns, and each setting is the one of the command line, else the one of the
-- file that the command line names or else of "rac.conf", else its default; a parser that raises
-- leaves its map without a value. The entry point's host and port come from the same text.
pub init_settings-settings_from :
    (command_line : Option VariablesMap) (parse_config_file : Bytes → Option VariablesMap)
    (c d : Contents) (s : Settings)
    → given (codes "help") (or_cleared command_line) ≡ false
    → Holds (or_cleared command_line) c
    → Holds (or_cleared (parse_config_file (or_else (codes "rac.conf") c.config_file))) d
    → init_settings command_line parse_config_file s ≡ (ok returns, settings_from c d s)
unfolding init_settings ◌>>=◌
init_settings-settings_from command_line parse_config_file c d s h i j =
    let cmd = or_cleared command_line in
    rw (h, config_file-or_else c.config_file cmd i.config_file)
      (fill_settings-settings_from c d cmd _ s i j)
