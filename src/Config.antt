-- ===== src/Config.antt =====
-- config-file/src/key_configfile.c: reading a configuration file through GLib's key-file reader,
-- which is a parameter.
pub mod Reads
use skc_library.Base.{Option, none, some, Str, ◌==◌, Bool, true, false, not, is_some, if◌then◌else◌}
use skc_library.Types.{GError, Error, ℤ, pos, negsuc, g_propagate_error}

-- GLib either returns a value or sets the error that the caller passed.
pub data Reading (A : Type 0) : Type 0 where
  value : A → Reading A
  failed : Error → Reading A

-- A loaded GKeyFile: its group and key give a text, an integer or a Boolean.
pub record KeyFile : Type 0 where
  pub text_of : Str → Str → Reading Str
  pub integer_of : Str → Str → Reading ℤ
  pub boolean_of : Str → Str → Reading Bool

-- The `int` that stands for a `gboolean`.
abbrev pub of_bool : Bool → ℤ
of_bool false = pos 0
of_bool true = pos 1

-- A `gboolean` in a condition.
abbrev pub is_true : ℤ → Bool
is_true (pos n) = not (n == 0)
is_true (negsuc n) = true

-- `load` is g_key_file_load_from_file on a new key file.
unfoldable pub key_config_openfile :
    (Str → Reading KeyFile) → Option Str → GError → Option KeyFile × GError
key_config_openfile load filename (some x) = (none, some x)
key_config_openfile load none none = (none, none)
key_config_openfile load (some filename) none = elim (load filename) [
  | value config ↦ (some config, none)
  | failed x ↦ (none, g_propagate_error none (some x))
]

-- GLib returns NULL, FALSE or 0 for a key file that is NULL, and sets no error.
unfoldable pub key_config_get_string : Option KeyFile → Str → Str → GError → Option Str × GError
key_config_get_string config section key (some x) = (none, some x)
key_config_get_string none section key none = (none, none)
key_config_get_string (some config) section key none = elim (config.text_of section key) [
  | value s ↦ (some s, none)
  | failed x ↦ (none, some x)
]

unfoldable pub key_config_get_string_optional : Option KeyFile → Str → Str → Str → Option Str
key_config_get_string_optional config section key default_val =
    let (val, err) = key_config_get_string config section key none in
    if is_some err then some default_val else val

unfoldable pub key_config_get_integer : Option KeyFile → Str → Str → GError → ℤ × GError
key_config_get_integer config section key (some x) = (negsuc 0, some x)
key_config_get_integer none section key none = (pos 0, none)
key_config_get_integer (some config) section key none = elim (config.integer_of section key) [
  | value n ↦ (n, none)
  | failed x ↦ (pos 0, some x)
]

unfoldable pub key_config_get_boolean : Option KeyFile → Str → Str → GError → ℤ × GError
key_config_get_boolean config section key (some x) = (negsuc 0, some x)
key_config_get_boolean none section key none = (pos 0, none)
key_config_get_boolean (some config) section key none = elim (config.boolean_of section key) [
  | value b ↦ (of_bool b, none)
  | failed x ↦ (pos 0, some x)
]

unfoldable pub key_config_get_boolean_optional : Option KeyFile → Str → Str → ℤ → ℤ
key_config_get_boolean_optional config section key default_val =
    let (val, err) = key_config_get_boolean config section key none in
    if is_some err then default_val else val
