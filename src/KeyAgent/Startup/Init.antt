-- ===== src/KeyAgent/Startup/Init.antt =====
-- key-agent/src/intf.cpp: keyagent_init.

use skc_library.Base.{
  Bool, true, false, not, ◌||◌, Option, none, some, [], ◌∷◌, ◌++◌, Str, codes, is_some,
  if◌then◌else◌, beq_bytes,
}
use skc_library.Types.{
  GError, keyagent_error, invalid_conf_value, invalid_keyformat, KeyAgentErrors, g_propagate_error,
}
use skc_library.Config.{key_config_openfile, key_config_get_boolean, key_config_get_string}
use skc_library.Effect.{Effect, pure, gets, modify, set_error, ◌>>=◌, ◌>>◌}
use skc_library.KeyAgent.Database.{Gda}
use skc_library.KeyAgent.SwkType.{session_init}
use skc_library.KeyAgent.Startup.{
  KeyFormat, pem, pkcs11, System, Startup, g_string_new, on_error, checked, handle_wildcards,
  initialize_stms, initialize_npms,
}
use skc_library.KeyAgent.Startup.Cache.{Connection, cache_init}

-- KEYAGENT_KEY_FORMAT_PKCS11_STR and KEYAGENT_KEY_FORMAT_PEM_STR, compared as `g_strcmp0` does:
-- NULL is neither.
unfoldable pub format_of : Option Str → Option KeyFormat
format_of none = none
format_of (some s) =
    if beq_bytes s (codes "PKCS11")
    then some pkcs11
    else if beq_bytes s (codes "PEMFILE")
    then some pem
    else none

abbrev pub core : Str
core = codes "core"

abbrev pub credentials : Str
credentials = codes "keyserver_credentials"

-- The static variables of `keyagent_init`, and the globals.
pub record Started (D W : Type 0) : Type 0 where
  pub once : Bool
  pub error : GError
  pub startup : Startup D W

module _ {D W : Type 0} where
  unfoldable pub refuse : KeyAgentErrors → Effect (Startup D W) Bool
  refuse x = do set_error (keyagent_error x); pure false

  -- A text of the configuration goes to a global, also where it is missing.
  unfoldable pub set_string :
      Str → Str → (Str → Startup D W → Startup D W) → Effect (Startup D W) (Unit {0})
  set_string section key put = do
    config ← gets (λ s. s.config)
    val ← on_error (key_config_get_string config section key)
    modify (put (g_string_new val))

  -- The tables, empty.
  unfoldable pub new_tables : Startup D W → Startup D W
  new_tables s = record s {
    npm_hash = [];
    agent = record s.agent {
      stm_hash = [];
      key_hash = [];
      session_hash = [];
      apimodule_loadkey_hash = [];
    };
  }

  -- __keyagent_session_init
  unfoldable pub new_swk_types : Startup D W → Startup D W
  new_swk_types s = record s { agent = record s.agent { swk_type_hash = session_init } }

  -- The result of __do_keyagent_init is dropped; the error that it left is kept.
  unfoldable pub started_from : Option (Bool × GError × Startup D W) → Option (Started D W)
  started_from none = none
  started_from (some (x, error, s)) = some (record { once = true; error = error; startup = s })

  -- The error that is kept decides, at each call.
  unfoldable pub answered : GError → Option (Started D W) → Option (Bool × GError × Started D W)
  answered err none = none
  answered err (some st) = some (not (is_some st.error), g_propagate_error err st.error, st)

  module _ (system : System D W) (connection : Connection W) (gda : Gda W) (pkgdata : Str) where
    -- From the search for STMs on.
    unfoldable pub load_stms : Effect (Startup D W) Bool
    load_stms = do
      directory ← gets (λ s. s.stm_directory)
      elim (handle_wildcards system (directory ++ codes "/stm_*.so"))
          as (λ _. Effect (Startup D W) Bool) [
            | [] ↦ refuse invalid_conf_value
            | m ∷ modules ↦ do
              modify new_swk_types
              initialize_stms system (m ∷ modules)
              cache_init connection system pkgdata gda
          ]

    -- From the search for NPMs on.
    unfoldable pub load_modules : Effect (Startup D W) Bool
    load_modules = do
      directory ← gets (λ s. s.npm_directory)
      elim (handle_wildcards system (directory ++ codes "/npm_*.so"))
          as (λ _. Effect (Startup D W) Bool) [
            | [] ↦ refuse invalid_conf_value
            | m ∷ modules ↦ do initialize_npms system (m ∷ modules); load_stms
          ]

    unfoldable pub check_ssl : Effect (Startup D W) Bool
    check_ssl =
        checked
          (do
            config ← gets (λ s. s.config)
            verify ← on_error (key_config_get_boolean config credentials (codes "ssl_verify"))
            modify λ s. record s { ssl_verify = verify })
          λ _. do modify new_tables; load_modules

    -- The files of the credentials; the key is a file under the format PEMFILE alone.
    unfoldable pub lacks_file : KeyFormat → Startup D W → Bool
    lacks_file pkcs11 s = not (system.exists s.cert) || not (system.exists s.cacert)
    lacks_file pem s =
        not (system.exists s.cert) || not (system.exists s.cacert) || not (system.exists s.certkey)

    unfoldable pub check_files : KeyFormat → Effect (Startup D W) Bool
    check_files format = do
      modify λ s. record s { keyformat = some format }
      missing ← gets (lacks_file format)
      if missing then refuse invalid_conf_value else check_ssl

    unfoldable pub check_format : Option Str → Effect (Startup D W) Bool
    check_format val = elim (format_of val) as (λ _. Effect (Startup D W) Bool) [
      | none ↦ refuse invalid_keyformat
      | some format ↦ check_files format
    ]

    unfoldable pub read_credentials : Effect (Startup D W) Bool
    read_credentials =
        checked (set_string credentials (codes "certificate") λ v s. record s { cert = v }) λ _.
          checked (set_string credentials (codes "certificate_key") λ v s. record s { certkey = v })
            λ _.
              checked
                (set_string credentials (codes "ca_certificate") λ v s. record s { cacert = v })
                λ _.
                  checked
                    (do
                      config ← gets (λ s. s.config)
                      on_error (key_config_get_string config credentials (codes "keyformat")))
                    check_format

    unfoldable pub read_core : Effect (Startup D W) Bool
    read_core =
        checked (set_string core (codes "npm-directory") λ v s. record s { npm_directory = v }) λ _.
          checked (set_string core (codes "stm-directory") λ v s. record s { stm_directory = v })
            λ _. read_credentials

    -- __do_keyagent_init
    unfoldable pub do_keyagent_init : Option Str → Effect (Startup D W) Bool
    do_keyagent_init none = refuse invalid_conf_value
    do_keyagent_init (some filename) = do
      modify λ s. record s {
        configdirectory = system.path_get_dirname filename;
        configfilename = filename;
      }
      checked
          (on_error (key_config_openfile system.load_file (some filename)) >>= λ config.
            modify λ s. record s { config = config })
          λ _. read_core

    -- The part of `keyagent_init` that runs once.
    unfoldable pub start_once : Option Str → Started D W → Option (Started D W)
    start_once filename st =
        if st.once then some st else started_from (do_keyagent_init filename st.error st.startup)

    -- keyagent_init
    unfoldable pub keyagent_init : Option Str → Effect (Started D W) Bool
    keyagent_init filename err st = answered err (start_once filename st)
