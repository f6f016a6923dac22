-- ===== src/KeyAgent/Startup/Fixture.antt =====
-- A small file system, with modules and a database, on which the key agent starts.
use skc_library.Base.{
  ℕ, ◌+◌, Bool, true, false, none, some, [], ◌∷◌, Str, codes, beq_bytes, if◌then◌else◌,
}
use skc_library.Types.{foreign, pos}
use skc_library.Config.{value, failed, KeyFile}
use skc_library.KeyAgent.Startup.{System, Startup, StmModule, NpmModule, opened}
use skc_library.KeyAgent.Startup.Cache.{Connection}
use skc_library.KeyAgent.Startup.Init.{Started}
use skc_library.KeyAgent.Fixture.{ops0, agent0}

-- A configuration under the key format PEMFILE, whose cache switches are given.
abbrev pub file0 : Bool → KeyFile
file0 keys = record {
  text_of = λ section key.
      if beq_bytes key (codes "keyformat")
      then value (codes "PEMFILE")
      else if beq_bytes section (codes "cache")
      then failed (foreign 4)
      else value key;
  integer_of = λ section key. failed (foreign 4);
  boolean_of =
      λ section key. if beq_bytes key (codes "cache_keys") then value keys else value false;
}

abbrev stm_module : StmModule Str ℕ
stm_module = record {
  stm_init = λ directory e w. (some (codes "SGX"), e, w + 1);
  stm_functions = ops0;
}

abbrev npm_module : NpmModule Str ℕ
npm_module = record {
  npm_init = λ directory e w. (some (codes "KMS"), e, w + 1);
  npm_register = λ url e a. some (true, e, a);
  npm_key_load = λ details e a. some (true, e, a);
}

-- Each directory holds one file that matches.
abbrev pub system0 : Bool → System Str ℕ
system0 keys = record {
  load_file = λ f. value (file0 keys);
  path_get_dirname = λ f. codes "/etc";
  path_get_basename = λ f. codes "*.so";
  read_dir = λ d. some (codes "npm_kms.so" ∷ codes "README" ∷ []);
  pattern_match = λ p n. beq_bytes n (codes "npm_kms.so");
  exists = λ f. true;
  open_stm = λ f. opened stm_module;
  open_npm = λ f. opened npm_module;
}

abbrev pub connection0 : Connection ℕ
connection0 = record {
  mkdir = λ d w. (none, w + 1);
  open_from_string = λ p c e w. (true, e, w + 1);
  parse_string = λ sql e w. (true, e, w + 1);
  execute_non_select = λ sql w. w + 1;
}

abbrev pub startup0 : Startup Str ℕ
startup0 = record {
  config = none;
  configdirectory = [];
  configfilename = [];
  npm_directory = [];
  stm_directory = [];
  cert = [];
  certkey = [];
  cacert = [];
  keyformat = none;
  ssl_verify = pos 0;
  npm_hash = [];
  provider_name = [];
  full_database_name = [];
  database_directory = [];
  database_name = [];
  connection_string = [];
  agent = agent0;
}

abbrev pub before : Started Str ℕ
before = record { once = false; error = none; startup = startup0 }
