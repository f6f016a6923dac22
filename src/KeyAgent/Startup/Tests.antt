-- ===== src/KeyAgent/Startup/Tests.antt =====
-- Starting the key agent on a small file system.
use skc_library.Base.{
  ℕ, ◌+◌, ◌≡◌, refl, Bool, true, false, Option, none, some, List, [], ◌∷◌, ◌++◌, Str, codes,
  beq_bytes, if◌then◌else◌,
}
use skc_library.Types.{GError}
use skc_library.Config.{Reading, value, failed, KeyFile}
use skc_library.Effect.Post.{state_after}
use skc_library.KeyAgent.State.{Agent}
use skc_library.KeyAgent.Startup.{System, Startup, StmModule, NpmModule, opened, not_opened}
use skc_library.KeyAgent.Startup.Cache.{Connection, cache_init}
use skc_library.KeyAgent.Startup.Init.{Started, keyagent_init}
use skc_library.KeyAgent.Startup.Accepts.{Read, keyagent_init-Accepted}
use skc_library.KeyAgent.Startup.Once.{keyagent_init-again}
use skc_library.KeyAgent.Startup.Caching.{cache_init-false}
use skc_library.KeyAgent.Fixture.{gda0}
use skc_library.KeyAgent.Startup.Fixture.{file0, system0, connection0, startup0, before}

abbrev conf : Option Str
conf = some (codes "/etc/key-agent.ini")

abbrev starting : Option (Bool × GError × Started Str ℕ)
starting = keyagent_init (system0 false) connection0 gda0 [] conf none before

abbrev after : Started Str ℕ
after = state_after before starting

starting_ends : starting ≡ some (true, none, after)
unfolding skc_library.Base.beq_bytes skc_library.Effect.◌>>=◌ skc_library.Config.key_config_openfile
    skc_library.Config.key_config_get_string skc_library.Config.key_config_get_boolean
    skc_library.KeyAgent.Startup.on_error skc_library.KeyAgent.Startup.call_outside
    skc_library.KeyAgent.Startup.checked skc_library.KeyAgent.Startup.matching
    skc_library.KeyAgent.Startup.handle_wildcards skc_library.KeyAgent.Startup.add_stm
    skc_library.KeyAgent.Startup.start_stm skc_library.KeyAgent.Startup.initialize_stm
    skc_library.KeyAgent.Startup.add_npm skc_library.KeyAgent.Startup.start_npm
    skc_library.KeyAgent.Startup.initialize_npm skc_library.KeyAgent.Startup.initialize_stms
    skc_library.KeyAgent.Startup.initialize_npms
    skc_library.KeyAgent.Startup.Cache.set_cache_sessions
    skc_library.KeyAgent.Startup.Cache.set_cache_keys skc_library.KeyAgent.Startup.Cache.cache_init
    skc_library.KeyAgent.Startup.Init.format_of skc_library.KeyAgent.Startup.Init.set_string
    skc_library.KeyAgent.Startup.Init.new_tables skc_library.KeyAgent.Startup.Init.new_swk_types
    skc_library.KeyAgent.Startup.Init.started_from skc_library.KeyAgent.Startup.Init.answered
    skc_library.KeyAgent.Startup.Init.load_stms skc_library.KeyAgent.Startup.Init.load_modules
    skc_library.KeyAgent.Startup.Init.check_ssl skc_library.KeyAgent.Startup.Init.lacks_file
    skc_library.KeyAgent.Startup.Init.check_files skc_library.KeyAgent.Startup.Init.check_format
    skc_library.KeyAgent.Startup.Init.read_credentials skc_library.KeyAgent.Startup.Init.read_core
    skc_library.KeyAgent.Startup.Init.do_keyagent_init skc_library.KeyAgent.Startup.Init.start_once
    skc_library.KeyAgent.Startup.Init.keyagent_init
starting_ends = refl

keyagent_init-Accepted_example : Read (system0 false) connection0 gda0 [] conf after.startup
keyagent_init-Accepted_example =
    keyagent_init-Accepted (system0 false) connection0 gda0 [] conf none none before after refl refl
      starting_ends

keyagent_init-again_example :
    keyagent_init (system0 false) connection0 gda0 [] none none after
    ≡ some (true, after.error, after)
keyagent_init-again_example =
    keyagent_init-again (system0 false) connection0 gda0 [] conf none none none true before after
      starting_ends

abbrev configured : Bool → Startup Str ℕ
configured keys = record startup0 { config = some (file0 keys) }

abbrev caching : Option (Bool × GError × Startup Str ℕ)
caching = cache_init connection0 (system0 true) [] gda0 none (configured true)

abbrev answer : Bool
answer = elim caching [ none ↦ true | some (x, e, s) ↦ x ]

caching_ends : caching ≡ some (answer, none, state_after startup0 caching)
unfolding skc_library.Base.beq_bytes skc_library.Effect.◌>>=◌
    skc_library.Config.key_config_get_boolean skc_library.KeyAgent.State.call
    skc_library.KeyAgent.Startup.on_error skc_library.KeyAgent.Startup.call_outside
    skc_library.KeyAgent.Startup.on_agent skc_library.KeyAgent.Startup.checked
    skc_library.KeyAgent.Startup.Cache.run_sql_non_select skc_library.KeyAgent.Startup.Cache.run_all
    skc_library.KeyAgent.Startup.Cache.create_cache_tables
    skc_library.KeyAgent.Startup.Cache.open_cache_connection
    skc_library.KeyAgent.Startup.Cache.set_cache_sessions
    skc_library.KeyAgent.Startup.Cache.set_cache_keys
    skc_library.KeyAgent.Startup.Cache.name_database
    skc_library.KeyAgent.Startup.Cache.make_directory skc_library.KeyAgent.Startup.Cache.restore
    skc_library.KeyAgent.Startup.Cache.open_database skc_library.KeyAgent.Startup.Cache.cache_init
    skc_library.KeyAgent.Cache.Keys.load_key_rows skc_library.KeyAgent.Cache.Keys.delete_all
    skc_library.KeyAgent.Cache.Keys.cache_loadkeys
caching_ends = refl

cache_init-false_example : answer ≡ false
unfolding beq_bytes
cache_init-false_example =
    cache_init-false (system0 true) connection0 gda0 [] (file0 true) false (configured true)
      (state_after startup0 caching) answer none refl refl refl caching_ends
