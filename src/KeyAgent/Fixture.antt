-- ===== src/KeyAgent/Fixture.antt =====
-- A small key agent for the tests: one STM with a session, one key, and a world that counts the
-- calls out of the library.
pub mod Formed
use skc_library.Base.{ℕ, ◌+◌, true, false, none, some, List, [], ◌∷◌, Str, codes, bytes_eq}
use skc_library.Types.{aeskey, pos, Call}
use skc_library.KeyAgent.Database.{Gda}
use skc_library.KeyAgent.State.{quark, Session, Key, StmOps, Stm, Request, Agent}
use skc_library.KeyAgent.Cache.{keydata}
use skc_library.KeyAgent.SwkType.{session_init}
use skc_library.KeyAgent.Transfer.Layout.{pack}

-- A call that succeeds and is counted.
abbrev counted : {A : Type 0} → A → Call ℕ A
counted x e w = (x, e, w + 1)

abbrev pub gda0 : Gda ℕ
gda0 = record {
  select_sessions = counted (some []);
  select_session = λ label. counted (some []);
  insert_session = λ label swk id type. counted true;
  select_keys = counted (some []);
  select_key = λ url. counted (some []);
  insert_key = λ url data' id type. counted true;
  select_key_attribute = λ id name. counted (some []);
  insert_key_attribute = λ id name value. counted true;
  delete_key_rows = λ table id w. w + 100;
}

abbrev pub ops0 : StmOps Str ℕ
ops0 = record {
  create_challenge = λ id cb details. counted (true, some (1 ∷ 2 ∷ []));
  set_session = λ id cb details. counted true;
  load_key = λ id type cb details. counted true;
}

abbrev pub stm0 : Stm Str ℕ
stm0 = record {
  label = codes "SGX";
  module_name = codes "stm_sgx.so";
  initialized = true;
  ops = ops0;
  session = some 0;
  apimodule = true;
}

abbrev pub session0 : Session
session0 = record {
  swk = 1 ∷ 2 ∷ 3 ∷ [];
  name = codes "SGX";
  session_id = codes "s0";
  swk_type = codes "AES256-GCM";
  cache_id = pos 1;
}

abbrev pub url0 : Str
url0 = codes "KMS:id0:label"

-- An initialisation vector of two bytes, a tag of 16 and a wrapped key of three bytes.
abbrev pub keydata0 : List ℕ
keydata0 = pack (5 ∷ 6 ∷ []) 16 (7 ∷ 8 ∷ 9 ∷ [])

abbrev pub key0 : Key
key0 = record {
  url = url0;
  type = aeskey;
  session = some 0;
  attributes = (keydata, keydata0) ∷ [];
  cache_id = pos 2;
}

abbrev pub request0 : Request Str
request0 = record { module_data = some (codes "uri"); npm_name = codes "KMS"; stm_name = none }

abbrev pub agent0 : Agent Str ℕ
agent0 = record {
  heap = session0 ∷ [];
  session_hash = (quark (codes "s0"), 0) ∷ [];
  key_hash = (quark url0, key0) ∷ [];
  stm_hash = (quark (codes "SGX"), stm0) ∷ [];
  swk_type_hash = session_init;
  apimodule_loadkey_hash = (codes "r0", request0) ∷ [];
  apimodule_ops = record { load_key = none; get_challenge = none; set_wrapping_key = none };
  apimodule_enabled = true;
  cache_sessions = false;
  cache_keys = false;
  fake_cache_ids = 0;
  global_model = false;
  global_delete_list = [];
  world = 0;
}
