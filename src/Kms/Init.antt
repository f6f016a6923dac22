-- ===== src/Kms/Init.antt =====
-- npm/kms/src/intf.cpp: npm_init and npm_finalize, which read the configuration of the protocol module
-- and give it back. The file name is built and loaded by parameters (GLib).
use skc_library.Base.{Option, none, some, Str, codes}
use skc_library.Types.{GError, Error, ℤ, pos}
use skc_library.Config.{
  KeyFile, Reading, key_config_openfile, key_config_get_string, key_config_get_boolean_optional,
}
use skc_library.KeyAgent.Startup.{g_string_new}
use skc_library.Kms.Wire.{kms_prefix_token}

-- A `GString *`: NULL, a string, or a pointer to memory that has been given back.
pub data GString : Type 0 where
  null : GString
  held : Str → GString
  freed : GString

-- The variables of `kms_npm`.
pub record NpmSettings : Type 0 where
  pub configfile : GString
  pub server_url : GString
  pub debug : ℤ

-- The pointer keeps its value; `none` is a second `g_string_free` of the same memory.
unfoldable pub k_string_free : GString → Option GString
k_string_free null = some null
k_string_free (held s) = some freed
k_string_free freed = none

unfoldable pub npm_finalize : NpmSettings → Option NpmSettings
npm_finalize s = elim (k_string_free s.configfile) [
  | none ↦ none
  | some file ↦ elim (k_string_free s.server_url) [
    | none ↦ none
    | some url ↦ some (record s { configfile = file; server_url = url })
  ]
]

abbrev pub core : Str
core = codes "core"

abbrev pub Answer : Type 0
Answer = Option (Option Str × GError × NpmSettings)

unfoldable pub finalize_and_fail : Error → NpmSettings → Answer
finalize_and_fail x s = elim (npm_finalize s) [ none ↦ none | some t ↦ some (none, some x, t) ]

unfoldable pub take_server : Option KeyFile → Option Str × GError → NpmSettings → Answer
take_server config (server, some x) s = finalize_and_fail x s
take_server config (server, none) s = some (
  some kms_prefix_token,
  none,
  record s {
    server_url = held (g_string_new server);
    debug = key_config_get_boolean_optional config core (codes "debug") (pos 0);
  },
)

unfoldable pub take_config : Option KeyFile × GError → NpmSettings → Answer
take_config (config, some x) s = finalize_and_fail x s
take_config (config, none) s =
    take_server config (key_config_get_string config core (codes "server") none) s

module _ (build_filename : Str → Str → Str) (load : Str → Reading KeyFile) where
  abbrev pub filename : Str → Str
  filename directory = build_filename directory (codes "kms_npm.ini")

  -- Without a directory nothing is read.
  unfoldable pub npm_init : Option Str → GError → NpmSettings → Answer
  npm_init none e s = some (none, e, s)
  npm_init (some directory) e s =
      take_config (key_config_openfile load (some (filename directory)) e)
        (record s { configfile = held (filename directory) })
