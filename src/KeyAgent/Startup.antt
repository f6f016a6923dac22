-- ===== src/KeyAgent/Startup.antt =====
-- key-agent/src/intf.cpp, key-agent/stm/stm_init.cpp and key-agent/npm/npm_init.cpp: how the key
-- agent starts. The file system, GLib's paths and patterns and the shared objects are parameters.
pub mod Cache
pub mod Init
pub mod Kept
pub mod Settings
pub mod Formed
pub mod Reads
pub mod Files
pub mod Accepts
pub mod Once
pub mod Caching
pub mod Fixture
mod Tests
use skc_library.Base.{
  ℕ, Bool, true, false, Option, none, some, List, [], ◌∷◌, ◌++◌, Str, is_some, if◌then◌else◌,
  bytes_eq,
}
use skc_library.Base.Table.{Table, insert}
use skc_library.Types.{GError, Error, ℤ, pos, Call}
use skc_library.Config.{Reading, KeyFile}
use skc_library.Effect.{Effect, pure, fault, gets, modify, own_error, ◌>>=◌, ◌>>◌}
use skc_library.KeyAgent.State.{gpointer_eq, quark, StmOps, Stm, Agent, Action}
use skc_library.KeyAgent.Load.{Npm, KeyloadDetails}

-- keyagent_keyserver_key_format
pub data KeyFormat : Type 0 where
  pem pkcs11 : KeyFormat

-- What `g_module_open` and the look-up of the module's functions give.
pub data Opened (A : Type 0) : Type 0 where
  not_opened lacks_symbol : Opened A
  opened : A → Opened A

-- The functions of an STM's shared object; `init` returns its label.
pub record StmModule (D W : Type 0) : Type 0 where
  pub stm_init : Str → Call W (Option Str)
  pub stm_functions : StmOps D W

-- The functions of an NPM's shared object.
pub record NpmModule (D W : Type 0) : Type 0 where
  pub npm_init : Str → Call W (Option Str)
  pub npm_register : Str → Action D W Bool
  pub npm_key_load : KeyloadDetails → Action D W Bool

-- The file system and GLib, as they are while the key agent starts.
pub record System (D W : Type 0) : Type 0 where
  pub load_file : Str → Reading KeyFile
  pub path_get_dirname : Str → Str
  pub path_get_basename : Str → Str
  pub read_dir : Str → Option (List Str)
  pub pattern_match : Str → Str → Bool
  pub exists : Str → Bool
  pub open_stm : Str → Opened (StmModule D W)
  pub open_npm : Str → Opened (NpmModule D W)

-- The globals that the start sets: those of `keyagent`, those of `keyagent::localcache`, and the
-- tables of the agent.
pub record Startup (D W : Type 0) : Type 0 where
  pub config : Option KeyFile
  pub configdirectory : Str
  pub configfilename : Str
  pub npm_directory : Str
  pub stm_directory : Str
  pub cert : Str
  pub certkey : Str
  pub cacert : Str
  pub keyformat : Option KeyFormat
  pub ssl_verify : ℤ
  pub npm_hash : Table Str (Npm D W)
  pub provider_name : Str
  pub full_database_name : Str
  pub database_directory : Str
  pub database_name : Str
  pub connection_string : Str
  pub agent : Agent D W

-- g_string_new: NULL gives the empty text.
abbrev pub g_string_new : Option Str → Str
g_string_new none = []
g_string_new (some s) = s

module _ {D W : Type 0} where
  -- A function of the library that works on the error variable alone.
  unfoldable pub on_error : {A : Type 0} → (GError → A × GError) → Effect (Startup D W) A
  on_error f e s = let (x, e') = f e in some (x, e', s)

  unfoldable pub call_outside : {A : Type 0} → Call W A → Effect (Startup D W) A
  call_outside f e s =
      let (x, e', w) = f e s.agent.world in
      some (x, e', record s { agent = record s.agent { world = w } })

  -- A function of the key agent.
  unfoldable pub on_agent : {A : Type 0} → Action D W A → Effect (Startup D W) A
  on_agent m e s = elim (m e s.agent) [
    | none ↦ none
    | some (x, e', a) ↦ some (x, e', record s { agent = a })
  ]

  -- `if(*err) return FALSE;` after an action.
  unfoldable pub checked :
      {A : Type 0}
      → Effect (Startup D W) A
      → (A → Effect (Startup D W) Bool)
      → Effect (Startup D W) Bool
  checked m k = do x ← m; bad ← on_error (λ e. (is_some e, e)); if bad then pure false else k x

  module _ (system : System D W) where
    unfoldable pub matching : Str → Str → List Str → List Str
    matching path pattern [] = []
    matching path pattern (name ∷ names) =
        let rest = matching path pattern names in
        if system.pattern_match pattern name then (path ++ b'/' ∷ name) ∷ rest else rest

    -- __handle_wildcards: a directory that does not open has no files.
    unfoldable pub handle_wildcards : Str → List Str
    handle_wildcards location = elim (system.read_dir (system.path_get_dirname location)) [
      | none ↦ []
      | some names ↦
          matching (system.path_get_dirname location) (system.path_get_basename location) names
    ]

    unfoldable pub add_stm : Str → Str → StmOps D W → Startup D W → Startup D W
    add_stm filename name ops s = record s {
      agent = record s.agent {
        stm_hash =
            insert (quark name)
              (record {
                label = name;
                module_name = filename;
                initialized = true;
                ops = ops;
                session = none;
                apimodule = false;
              })
              s.agent.stm_hash;
      };
    }

    -- A module whose `init` gives no label: its error's message is read, which is a read through
    -- NULL where it left none.
    unfoldable pub report : GError → Effect (Startup D W) (Unit {0})
    report none = fault
    report (some x) = pure tt

    unfoldable pub start_stm : Str → StmModule D W → Effect (Startup D W) (Unit {0})
    start_stm filename m = do
      directory ← gets (λ s. s.configdirectory)
      started ← own_error (call_outside (m.stm_init directory))
      elim started.0 as (λ _. Effect (Startup D W) (Unit {0})) [
        | none ↦ report started.1
        | some name ↦ modify (add_stm filename name m.stm_functions)
      ]

    -- __initialize_stm. Errors are reported and do not reach the caller.
    unfoldable pub initialize_stm : Str → Effect (Startup D W) (Unit {0})
    initialize_stm filename = elim (system.open_stm filename) [
      | not_opened ↦ pure tt
      | lacks_symbol ↦ pure tt
      | opened m ↦ start_stm filename m
    ]

    unfoldable pub add_npm : Str → NpmModule D W → Startup D W → Startup D W
    add_npm name m s = record s {
      npm_hash =
          insert name
            (record {
              label = name;
              initialized = true;
              register = m.npm_register;
              key_load = m.npm_key_load;
            })
            s.npm_hash;
    }

    unfoldable pub start_npm : NpmModule D W → Effect (Startup D W) (Unit {0})
    start_npm m = do
      directory ← gets (λ s. s.configdirectory)
      started ← own_error (call_outside (m.npm_init directory))
      elim started.0 as (λ _. Effect (Startup D W) (Unit {0})) [
        | none ↦ report started.1
        | some name ↦ modify (add_npm name m)
      ]

    -- __initialize_npm
    unfoldable pub initialize_npm : Str → Effect (Startup D W) (Unit {0})
    initialize_npm filename = elim (system.open_npm filename) [
      | not_opened ↦ pure tt
      | lacks_symbol ↦ pure tt
      | opened m ↦ start_npm m
    ]

    -- g_list_foreach
    unfoldable pub initialize_stms : List Str → Effect (Startup D W) (Unit {0})
    initialize_stms [] = pure tt
    initialize_stms (filename ∷ modules) = do initialize_stm filename; initialize_stms modules

    unfoldable pub initialize_npms : List Str → Effect (Startup D W) (Unit {0})
    initialize_npms [] = pure tt
    initialize_npms (filename ∷ modules) = do initialize_npm filename; initialize_npms modules
