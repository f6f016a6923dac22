-- ===== src/Kms/Tests.antt =====
-- Runs of the key server's protocol module.
use skc_library.Base.{
  ℕ, suc, zero, ◌+◌, ◌≡◌, refl, Bool, true, false, Option, none, some, List, [], ◌∷◌, ◌++◌, Str,
  codes, colon, Lacks, arith, is_some, ◌≢◌, inl, has_prefix, beq_bytes, if◌then◌else◌,
}
use skc_library.Types.{GError, foreign, pos}
use skc_library.Config.{KeyFile, Reading, value, failed}
use skc_library.Effect.Post.{state_after}
use skc_library.KeyAgent.State.{Agent}
use skc_library.KeyAgent.Cache.{key_lookup}
use skc_library.KeyAgent.Load.{KeyloadDetails, loadkey_with_moduledata}
use skc_library.KeyAgent.WellFormed.{IsWellFormed}
use skc_library.KeyAgent.Fixture.Formed.{agent0-IsWellFormed}
use skc_library.Kms.Tame.{loadkey_with_moduledata-kms_npm}
use skc_library.KeyAgent.Fixture.{agent0, gda0, keydata0}
use skc_library.Kms.Server.{Json, Server}
use skc_library.Kms.Wire.{kms_prefix_token, session_tokens, session_id_of, strip, is_session_header}
use skc_library.Kms.Start.{refuse}
use skc_library.Kms.Protocol.{kms_npm, attempt, npm_loadkey, npm_key_load}
use skc_library.Kms.Init.{null, held, freed, NpmSettings, npm_finalize, npm_init}
use skc_library.Kms.Configured.{Configured, npm_init-Configured, npm_finalize-npm_init}
use skc_library.Kms.Fetches.{npm_loadkey-enough, npm_key_load-Fetched}
use skc_library.Kms.Headers.{header_name, NoSession, session_line, session_id_of-line}

-- JSON of which only the text of a name is read, the same for every value.
abbrev json0 : Json ℕ
json0 = record {
  parse = λ bytes. 0;
  field = λ j name. some j;
  item = λ j i. some j;
  text = λ j name. some (codes "AES");
  write_session = λ type id quote. [];
}

abbrev server0 : Server ℕ ℕ
server0 = record {
  server_url = codes "https://kbs";
  json = json0;
  base64 = record { decode = λ s. s; encode = λ s. s };
  send = λ url headers post w. (
    record {
      status = pos 200;
      headers = session_line false (codes "SGX") (codes "s0") none ∷ [];
      body = [];
    },
    w + 1,
  );
  stack = [];
}

abbrev details0 : KeyloadDetails
details0 = record { request_id = codes "r0"; url = codes "KMS:id1:label"; stm_names = codes "SGX" }

npm_loadkey-enough_example :
    npm_loadkey {D = Str} server0 gda0 details0 3 0 ≡ npm_loadkey server0 gda0 details0 7 0
npm_loadkey-enough_example =
    npm_loadkey-enough server0 gda0 details0 2 6 0 (omega arith) (omega arith)

abbrev fetching : Option (Bool × GError × Agent Str ℕ)
fetching = npm_key_load server0 gda0 details0 none agent0

fetched : fetching ≡ some (true, none, state_after agent0 fetching)
unfolding skc_library.Base.Table.lookup skc_library.Base.Table.insert skc_library.Base.beq_bytes
    skc_library.Base.split skc_library.Base.token skc_library.Base.has_prefix
    skc_library.Effect.◌>>=◌ skc_library.KeyAgent.State.g_direct_equal
    skc_library.KeyAgent.Cache.generate_fake_id skc_library.KeyAgent.Cache.key_lookup
    skc_library.KeyAgent.Cache.key_set_cache_id skc_library.KeyAgent.Cache.Keys.fake_key_id
    skc_library.KeyAgent.Cache.Keys.key_outcome skc_library.KeyAgent.Cache.Keys.cache_key
    skc_library.KeyAgent.Key.session_lookup skc_library.KeyAgent.Key.cache_new_key
    skc_library.KeyAgent.Key.insert_new_key skc_library.KeyAgent.Key.create_checked
    skc_library.KeyAgent.Key.create_absent skc_library.KeyAgent.Key.key_create_with_cacheid
    skc_library.KeyAgent.Key.key_create skc_library.Kms.Wire.strip_left
    skc_library.Kms.Wire.strip_right skc_library.Kms.Wire.strip
    skc_library.Kms.Wire.is_session_header skc_library.Kms.Wire.session_tokens
    skc_library.Kms.Wire.session_id_of skc_library.Kms.Wire.is_kms_token
    skc_library.Kms.Wire.read_transfer skc_library.Kms.Start.send
    skc_library.Kms.Protocol.create_key skc_library.Kms.Protocol.key_with_id
    skc_library.Kms.Protocol.key_under skc_library.Kms.Protocol.take_key
    skc_library.Kms.Protocol.take_reply skc_library.Kms.Protocol.attempt
    skc_library.Kms.Protocol.npm_loadkey skc_library.Kms.Protocol.npm_key_load
fetched = refl

npm_key_load-Fetched_example :
    is_some (key_lookup (state_after agent0 fetching) (codes "KMS:id1:label")) ≡ true
npm_key_load-Fetched_example =
    npm_key_load-Fetched server0 gda0 details0 none none agent0 (state_after agent0 fetching)
      fetched

no_more : NoSession (codes "Date: today" ∷ [])
no_more = (λ lower rest same. other lower rest same, tt)
  where
    other : (lower : Bool) (rest : Str) → codes "Date: today" ≢ header_name lower ++ colon ∷ rest
    other false rest same = ground (arith, same)
    other true rest same = ground (arith, same)

lacks_label : Lacks colon (codes "SGX")
lacks_label = ground arith

lacks_id : Lacks colon (codes " s0 ")
lacks_id = ground arith

-- `s0` stands between two blanks.
session_id_of-line_example :
    (tokens : List Str) × (session_tokens
        ([]
          ++ session_line true (codes "SGX") (codes " s0 ") (some (codes "x"))
            ∷ codes "Date: today"
            ∷ [])
        none
      ≡ some tokens)
    × (session_id_of tokens ≡ some (some (codes "s0")))
session_id_of-line_example =
    session_id_of-line [] (codes "Date: today" ∷ []) true (codes "SGX") (codes " ") (codes "s0")
      (codes " ") (some (codes "x")) lacks_label lacks_id (inl refl, tt)
      (λ blank. ground (arith, blank)) (λ blank. ground (arith, blank)) (inl refl, tt) no_more

abbrev in_directory : Str → Str → Str
in_directory directory name = directory ++ name

-- A file whose texts are all this reading.
abbrev file_of : Reading Str → KeyFile
file_of server = record {
  text_of = λ section key. server;
  integer_of = λ section key. failed (foreign 4);
  boolean_of = λ section key. value true;
}

abbrev unset : NpmSettings
unset = record { configfile = null; server_url = null; debug = pos 0 }

abbrev set_up : NpmSettings
set_up = record {
  configfile = held (codes "/etc/kms_npm.ini");
  server_url = held (codes "https://kbs");
  debug = pos 1;
}

abbrev broken : NpmSettings
broken = record { configfile = freed; server_url = null; debug = pos 0 }

inited :
    npm_init in_directory
      (λ _. value (file_of (value (codes "https://kbs"))))
      (some (codes "/etc/"))
      none
      unset
    ≡ some (some kms_prefix_token, none, set_up)
unfolding npm_init skc_library.Kms.Init.take_server skc_library.Kms.Init.take_config
    skc_library.Config.key_config_openfile skc_library.Config.key_config_get_string
    skc_library.Config.key_config_get_boolean skc_library.Config.key_config_get_boolean_optional
inited = refl

failed_init :
    npm_init in_directory
      (λ _. value (file_of (failed (foreign 4))))
      (some (codes "/etc/"))
      none
      unset
    ≡ some (none, some (foreign 4), broken)
unfolding npm_init skc_library.Kms.Init.k_string_free npm_finalize
    skc_library.Kms.Init.finalize_and_fail skc_library.Kms.Init.take_server
    skc_library.Kms.Init.take_config skc_library.Config.key_config_openfile
    skc_library.Config.key_config_get_string
failed_init = refl

npm_init-Configured_example :
    (kms_prefix_token ≡ kms_prefix_token)
    × Configured
        (λ _. value (file_of (value (codes "https://kbs"))))
        (codes "/etc/kms_npm.ini")
        set_up
npm_init-Configured_example =
    npm_init-Configured in_directory (λ _. value (file_of (value (codes "https://kbs"))))
      (codes "/etc/") kms_prefix_token none unset set_up inited

npm_finalize-npm_init_example : npm_finalize broken ≡ none
npm_finalize-npm_init_example =
    npm_finalize-npm_init in_directory (λ _. value (file_of (failed (foreign 4)))) (codes "/etc/")
      (some (foreign 4)) unset broken failed_init

abbrev random_int : ℕ → ℕ × ℕ
random_int w = (w, w + 1)

-- A server whose payload is a wrapped key.
abbrev server1 : Server ℕ ℕ
server1 = record server0 {
  json = record json0 {
    text = λ j name. if beq_bytes name (codes "payload") then some keydata0 else some (codes "AES");
  };
}

-- A key that the key agent lacks, through the key server's module.
abbrev loading : Option (Bool × GError × Agent Str ℕ)
loading =
    loadkey_with_moduledata random_int (kms_npm server1 gda0 ∷ []) (codes "KMS:id1:label") none none
      agent0

loading_ends : loading ≡ some (true, none, state_after agent0 loading)
unfolding skc_library.KeyAgent.Transfer.Layout.header skc_library.Base.beq_bytes
    skc_library.Base.split skc_library.Base.token skc_library.Base.has_prefix
    skc_library.Base.Table.lookup skc_library.Base.Table.insert skc_library.Effect.◌>>=◌
    skc_library.KeyAgent.State.g_direct_equal skc_library.KeyAgent.State.call
    skc_library.KeyAgent.State.session_at skc_library.KeyAgent.Transfer.read_header
    skc_library.KeyAgent.Cache.generate_fake_id skc_library.KeyAgent.Cache.key_lookup
    skc_library.KeyAgent.Cache.key_set_cache_id skc_library.KeyAgent.Cache.Keys.fake_key_id
    skc_library.KeyAgent.Cache.Keys.key_outcome skc_library.KeyAgent.Cache.Keys.cache_key
    skc_library.KeyAgent.Key.session_lookup skc_library.KeyAgent.Key.cache_new_key
    skc_library.KeyAgent.Key.insert_new_key skc_library.KeyAgent.Key.create_checked
    skc_library.KeyAgent.Key.create_absent skc_library.KeyAgent.Key.key_create_with_cacheid
    skc_library.KeyAgent.Key.key_create skc_library.KeyAgent.Stm.put_request
    skc_library.KeyAgent.Stm.stm_load_key skc_library.KeyAgent.Load.is_empty
    skc_library.KeyAgent.Load.url_lacks_tokens skc_library.KeyAgent.Load.fresh_request_id
    skc_library.KeyAgent.Load.propagate skc_library.KeyAgent.Load.load_found
    skc_library.KeyAgent.Load.load_through skc_library.KeyAgent.Load.loadkey
    skc_library.KeyAgent.Load.find_npm skc_library.KeyAgent.Load.load_missing
    skc_library.KeyAgent.Load.loadkey_with_moduledata skc_library.Kms.Wire.strip_left
    skc_library.Kms.Wire.strip_right skc_library.Kms.Wire.strip
    skc_library.Kms.Wire.is_session_header skc_library.Kms.Wire.session_tokens
    skc_library.Kms.Wire.session_id_of skc_library.Kms.Wire.is_kms_token
    skc_library.Kms.Wire.decode64 skc_library.Kms.Wire.read_transfer skc_library.Kms.Start.send
    skc_library.Kms.Protocol.create_key skc_library.Kms.Protocol.key_with_id
    skc_library.Kms.Protocol.key_under skc_library.Kms.Protocol.take_key
    skc_library.Kms.Protocol.take_reply skc_library.Kms.Protocol.attempt
    skc_library.Kms.Protocol.npm_loadkey skc_library.Kms.Protocol.npm_key_load
    skc_library.Kms.Protocol.lacks_id skc_library.Kms.Protocol.npm_register
    skc_library.Kms.Protocol.kms_npm skc_library.Request.keyagent_generate_request_id
loading_ends = refl

loadkey_with_moduledata-kms_npm_example : IsWellFormed (state_after agent0 loading)
loadkey_with_moduledata-kms_npm_example =
    loadkey_with_moduledata-kms_npm server1 gda0 random_int (codes "KMS:id1:label") none true none
      none agent0 (state_after agent0 loading) agent0-IsWellFormed loading_ends
