-- ===== src/KeyAgent/Startup/Cache.antt =====
-- key-agent/src/cache-init.cpp: opening the local database. libgda is a parameter.
use skc_library.Base.{
  Bool, true, false, not, ◌||◌, Option, none, some, List, [], ◌∷◌, ◌++◌, Str, codes, if◌then◌else◌,
}
use skc_library.Types.{Error, ℤ, Call}
use skc_library.Config.{is_true, key_config_get_boolean, key_config_get_string_optional}
use skc_library.Effect.{Effect, pure, gets, modify, set_error, ◌>>=◌, ◌>>◌}
use skc_library.KeyAgent.Database.{Gda}
use skc_library.KeyAgent.Cache.{cache_loadsessions}
use skc_library.KeyAgent.Cache.Keys.{cache_loadkeys}
use skc_library.KeyAgent.Startup.{
  System, Startup, g_string_new, on_error, call_outside, on_agent, checked,
}

-- The connection, the parser of statements and their execution, whose outcome the source drops.
-- `mkdir` gives the error of a directory that cannot be made.
pub record Connection (W : Type 0) : Type 0 where
  pub mkdir : Str → W → Option Error × W
  pub open_from_string : Str → Str → Call W Bool
  pub parse_string : Str → Call W Bool
  pub execute_non_select : Str → W → W

abbrev pub create_keys : Str
create_keys =
    codes
      "CREATE TABLE keys (id INTEGER PRIMARY KEY AUTOINCREMENT NOT NULL, sealed_data BLOB NOT NULL, session_id VARCHAR(64) NOT NULL, key_type INTEGER NOT NULL, url VARCHAR (256) NOT NULL UNIQUE ON CONFLICT REPLACE)"

abbrev pub create_sessions : Str
create_sessions =
    codes
      "CREATE TABLE sessions (id INTEGER PRIMARY KEY AUTOINCREMENT UNIQUE, stm_label VARCHAR (64) NOT NULL UNIQUE ON CONFLICT REPLACE, swk BLOB NOT NULL, session_id VARCHAR (64), swk_type VARCHAR (64))"

abbrev pub create_key_policy_attributes : Str
create_key_policy_attributes =
    codes
      "CREATE TABLE key_policy_attributes (keyattr_policy_id INTEGER PRIMARY KEY AUTOINCREMENT UNIQUE, key_id INTEGER NOT NULL REFERENCES keys (id) ON UPDATE CASCADE, attr_name VARCHAR(64) NOT NULL, attr_value VARCHAR(256) NOT NULL, UNIQUE (key_id, attr_name) ON CONFLICT REPLACE)"

abbrev pub create_key_attributes : Str
create_key_attributes =
    codes
      "CREATE TABLE key_attributes (keyattr_id INTEGER PRIMARY KEY AUTOINCREMENT NOT NULL, key_id INTEGER NOT NULL REFERENCES keys (id) ON UPDATE CASCADE, attr_name VARCHAR(64) NOT NULL, attr_value BLOB NOT NULL, UNIQUE (key_id, attr_name) ON CONFLICT REPLACE)"

module _ {D W : Type 0} (connection : Connection W) where
  -- __run_sql_non_select
  unfoldable pub run_sql_non_select : Str → Effect (Startup D W) Bool
  run_sql_non_select sql = do
    parsed ← call_outside (connection.parse_string sql)
    if parsed
        then (do call_outside (λ e w. (tt, e, connection.execute_non_select sql w)); pure true)
        else pure false

  unfoldable pub run_all : List Str → Effect (Startup D W) Bool
  run_all [] = pure true
  run_all (sql ∷ statements) = do
    done ← run_sql_non_select sql
    if done then run_all statements else pure false

  -- __create_cache_tables
  unfoldable pub create_cache_tables : Effect (Startup D W) Bool
  create_cache_tables =
      run_all
        (create_keys ∷ create_sessions ∷ create_key_policy_attributes ∷ create_key_attributes ∷ [])

  -- __open_cache_connection
  unfoldable pub open_cache_connection : Effect (Startup D W) Bool
  open_cache_connection = do
    s ← gets (λ s. s)
    call_outside (connection.open_from_string s.provider_name s.connection_string)

  unfoldable pub set_cache_sessions : ℤ → Startup D W → Startup D W
  set_cache_sessions b s = record s { agent = record s.agent { cache_sessions = is_true b } }

  unfoldable pub set_cache_keys : ℤ → Startup D W → Startup D W
  set_cache_keys b s = record s { agent = record s.agent { cache_keys = is_true b } }

  module _ (system : System D W) (pkgdata : Str) where
    abbrev pub default_database : Str
    default_database = pkgdata ++ codes "/var/cache/keyagent_cache"

    -- The names of the provider, of the database and of its directory.
    unfoldable pub name_database : Startup D W → Startup D W
    name_database s =
        let provider = g_string_new (
          key_config_get_string_optional s.config (codes "cache") (codes "database_provider")
            (codes "SQLite")) in
        let full = g_string_new (
          key_config_get_string_optional s.config (codes "cache") (codes "database_name")
            default_database) in
        let directory = system.path_get_dirname full in
        let name = system.path_get_basename full in
        record s {
          provider_name = provider;
          full_database_name = full;
          database_directory = directory;
          database_name = name;
          connection_string = codes "DB_DIR=" ++ (directory ++ (codes ";DB_NAME=" ++ name));
        }

    -- Making the directory of the database.
    unfoldable pub make_directory : Effect (Startup D W) Bool
    make_directory = do
      directory ← gets (λ s. s.database_directory)
      failure ← call_outside (λ e w. let (x, w') = connection.mkdir directory w in (x, e, w'))
      elim failure as (λ _. Effect (Startup D W) Bool) [
        | none ↦ pure true
        | some x ↦ do set_error x; pure false
      ]

    module _ (gda : Gda W) where
      -- Sessions and then keys are read back. With a cache of keys the result is FALSE.
      unfoldable pub restore : Effect (Startup D W) Bool
      restore = do
        sessions ← gets (λ s. s.agent.cache_sessions)
        keys ← gets (λ s. s.agent.cache_keys)
        loaded ← if sessions then on_agent (cache_loadsessions gda) else pure true
        if loaded
            then (do
              restored ← if keys then on_agent (cache_loadkeys gda) else pure true
              if restored then pure (not keys) else pure false)
            else pure false

      unfoldable pub open_database : Effect (Startup D W) Bool
      open_database = do
        modify name_database
        made ← make_directory
        if made
            then (do
              connected ← open_cache_connection
              if connected
                  then (do created ← create_cache_tables; if created then restore else pure false)
                  else pure false)
            else pure false

      -- __keyagent_cache_init
      unfoldable pub cache_init : Effect (Startup D W) Bool
      cache_init = do
        config ← gets (λ s. s.config)
        checked
            (on_error (key_config_get_boolean config (codes "cache") (codes "cache_sessions"))
              >>= λ b. modify (set_cache_sessions b))
            λ _.
              checked
                (on_error (key_config_get_boolean config (codes "cache") (codes "cache_keys"))
                  >>= λ b. modify (set_cache_keys b))
                λ _. do
                  s ← gets (λ s. s)
                  if s.agent.cache_sessions || s.agent.cache_keys then open_database else pure true
