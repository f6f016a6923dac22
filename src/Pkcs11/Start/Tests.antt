-- ===== src/Pkcs11/Start/Tests.antt =====
-- Starting the API module over the key agent of the fixture.
use skc_library.Base.{
  ℕ, ◌+◌, ◌≡◌, refl, Bool, true, false, Option, none, some, List, [], ◌∷◌, Str, codes,
  if◌then◌else◌, beq_bytes,
}
use skc_library.Types.{GError, foreign}
use skc_library.Config.{Reading, value, failed, KeyFile}
use skc_library.Effect.Post.{state_after}
use skc_library.KeyAgent.Fixture.{gda0, agent0}
use skc_library.KeyAgent.Startup.Fixture.{system0, connection0, before}
use skc_library.Pkcs11.Start.{FunctionList, Loader, Host, apimodule_init, c_getfunctionlist}
use skc_library.Pkcs11.Start.Once.{c_getfunctionlist-again}

-- One module, which implements both entries; the function list is a number.
abbrev loader0 : Loader ℕ
loader0 = record {
  module_open = λ name. some 7;
  get_function_list = λ m. some (0, 42);
  has_initialize = λ m. true;
  has_finalize = λ m. true;
}

abbrev conf0 : KeyFile
conf0 = record {
  text_of = λ section key.
      if beq_bytes key (codes "mode")
      then value (codes "SGX")
      else if beq_bytes key (codes "preload_keys")
      then failed (foreign 3)
      else value key;
  integer_of = λ section key. failed (foreign 3);
  boolean_of = λ section key. failed (foreign 3);
}

abbrev host0 : Host ℕ Str ℕ
host0 = record {
  module_hash = [];
  closed = [];
  c_initialize = none;
  c_finalize = none;
  func_list = none;
  mode = none;
  loadable_module = none;
  pre_load_keyfile = none;
  ops = none;
  keyagent = before;
  once = false;
  once_rv = 5;
  at_fork = false;
}

abbrev starting : Option (ℕ × GError × Host ℕ Str ℕ)
starting =
    apimodule_init loader0 (λ f. value conf0) [] none (system0 false) connection0 gda0 []
      agent0.apimodule_ops none host0

abbrev after : Host ℕ Str ℕ
after = state_after host0 starting

abbrev listing : Option ((ℕ × Option (FunctionList ℕ)) × GError × Host ℕ Str ℕ)
listing =
    c_getfunctionlist loader0 (λ f. value conf0) [] none (system0 false) connection0 gda0 []
      agent0.apimodule_ops none host0

abbrev list0 : FunctionList ℕ
list0 = record { entries = 42; own_initialize = true; own_finalize = true }

abbrev listed : Host ℕ Str ℕ
listed = state_after host0 listing

listing_ends : listing ≡ some ((0, some list0), none, listed)
unfolding skc_library.Base.Table.lookup skc_library.Base.Table.insert skc_library.Base.beq_bytes
    skc_library.Effect.◌>>=◌ skc_library.Config.key_config_openfile
    skc_library.Config.key_config_get_string skc_library.Config.key_config_get_boolean
    skc_library.KeyAgent.State.g_direct_equal skc_library.KeyAgent.Stm.stm_apimodule_enable
    skc_library.KeyAgent.Load.apimodule_register skc_library.KeyAgent.Startup.on_error
    skc_library.KeyAgent.Startup.call_outside skc_library.KeyAgent.Startup.checked
    skc_library.KeyAgent.Startup.matching skc_library.KeyAgent.Startup.handle_wildcards
    skc_library.KeyAgent.Startup.add_stm skc_library.KeyAgent.Startup.start_stm
    skc_library.KeyAgent.Startup.initialize_stm skc_library.KeyAgent.Startup.add_npm
    skc_library.KeyAgent.Startup.start_npm skc_library.KeyAgent.Startup.initialize_npm
    skc_library.KeyAgent.Startup.initialize_stms skc_library.KeyAgent.Startup.initialize_npms
    skc_library.KeyAgent.Startup.Cache.set_cache_sessions
    skc_library.KeyAgent.Startup.Cache.set_cache_keys skc_library.KeyAgent.Startup.Cache.cache_init
    skc_library.KeyAgent.Startup.Init.format_of skc_library.KeyAgent.Startup.Init.set_string
    skc_library.KeyAgent.Startup.Init.new_tables skc_library.KeyAgent.Startup.Init.new_swk_types
    skc_library.KeyAgent.Startup.Init.started_from skc_library.KeyAgent.Startup.Init.answered
    skc_library.KeyAgent.Startup.Init.load_stms skc_library.KeyAgent.Startup.Init.load_modules
    skc_library.KeyAgent.Startup.Init.check_ssl skc_library.KeyAgent.Startup.Init.lacks_file
    skc_library.KeyAgent.Startup.Init.check_files skc_library.KeyAgent.Startup.Init.check_format
    skc_library.KeyAgent.Startup.Init.read_credentials skc_library.KeyAgent.Startup.Init.read_core
    skc_library.KeyAgent.Startup.Init.do_keyagent_init skc_library.KeyAgent.Startup.Init.start_once
    skc_library.KeyAgent.Startup.Init.keyagent_init skc_library.Pkcs11.Start.on_tables
    skc_library.Pkcs11.Start.with_error skc_library.Pkcs11.Start.on_keyagent
    skc_library.Pkcs11.Start.take_entries skc_library.Pkcs11.Start.take_module
    skc_library.Pkcs11.Start.apimodule_load_module skc_library.Pkcs11.Start.register_with_keyagent
    skc_library.Pkcs11.Start.start_keyagent skc_library.Pkcs11.Start.start_module
    skc_library.Pkcs11.Start.read_text skc_library.Pkcs11.Start.read_settings
    skc_library.Pkcs11.Start.apimodule_init skc_library.Pkcs11.Start.init_once
    skc_library.Pkcs11.Start.c_getfunctionlist
listing_ends = refl

c_getfunctionlist-again_example :
    c_getfunctionlist loader0
      (λ f. value conf0)
      []
      none
      (system0 false)
      connection0
      gda0
      []
      agent0.apimodule_ops
      none
      listed
    ≡ some ((0, some list0), none, listed)
c_getfunctionlist-again_example =
    c_getfunctionlist-again loader0 (λ f. value conf0) [] none (system0 false) connection0 gda0 []
      agent0.apimodule_ops none none none (0, some list0) host0 listed listing_ends
