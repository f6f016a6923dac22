-- ===== src/KeyAgent/Tests.antt =====
-- Runs of the key agent on the fixture, and its theorems at concrete inputs.
use skc_library.Types.{pos, rsakey, keytype_code}
use skc_library.Base.{◌==◌}
use skc_library.KeyAgent.Database.{KeyRow}
use skc_library.KeyAgent.Cache.Keys.{load_key_rows}
use skc_library.KeyAgent.Cache.Keys.Restart.{load_key_rows-marks_others}
use skc_library.KeyAgent.SwkType.Supported.{
  underscored, IsOneOf, swk_names, lookup_swktype-supported,
}
use skc_library.Base.{◌↔◌}
use skc_library.Base.{
  inl, inr, ◌<◌, ℕ, ◌+◌, ◌*◌, ◌≡◌, refl, Bool, true, false, Option, none, some, List, [], ◌∷◌, Str,
  codes, bytes_eq, arith, is_some, split, join, token, beq_bytes, length, c_str,
}
use skc_library.Base.Table.{lookup, insert}
use skc_library.Types.{aeskey, negsuc, GError}
use skc_library.Effect.{◌>>=◌}
use skc_library.Effect.Post.{Post, state_after}
use skc_library.KeyAgent.State.{gpointer_eq, quark, Key, Agent, g_direct_equal, session_at}
use skc_library.KeyAgent.Cache.{keydata, key_lookup}
use skc_library.KeyAgent.SwkType.{lookup_swktype, session_init, make_swktype}
use skc_library.KeyAgent.Stm.{stm_get_by_name, stm_load_key}
use skc_library.KeyAgent.Stm.LoadsKey.{Ready, handed, stm_load_key-handed}
use skc_library.KeyAgent.Transfer.{read_header, word}
use skc_library.KeyAgent.Transfer.Layout.{header}
use skc_library.KeyAgent.Key.{session_lookup, key_remove_by_session, key_create}
use skc_library.KeyAgent.Key.Removal.{key_remove_by_session-keeps}
use skc_library.KeyAgent.Key.Presence.{key_create-Present}
use skc_library.KeyAgent.Session.{session_create_with_cacheid}
use skc_library.KeyAgent.Session.Creates.{Stored, session_create-Stored}
use skc_library.KeyAgent.Load.{Npm, url_lacks_tokens, loadkey_with_moduledata, load_through}
use skc_library.KeyAgent.Load.Finds.{
  next_id, loadkey_with_moduledata-Found, loadkey_with_moduledata-again, load_through-Forgotten,
}
use skc_library.KeyAgent.Fixture.{gda0, agent0, stm0, key0, url0, request0, keydata0}

abbrev counter : ℕ → ℕ × ℕ
counter w = (w * 0x01020304, w + 1)

-- An NPM that takes every URL, and has a key for it.
abbrev npm0 : Npm Str ℕ
npm0 = record {
  label = codes "KMS";
  initialized = true;
  register = λ url e a. some (true, e, a);
  key_load = λ details e a. some (
    true,
    e,
    record a { key_hash = (quark details.url, record key0 { url = details.url }) ∷ a.key_hash },
  );
}

abbrev new_url : Str
new_url = codes "KMS:id1:label"

-- The removal of a session's keys removes nothing.
key_remove_by_session-keeps_example :
    key_remove_by_session gda0 0 none agent0 ≡ some (tt, none, agent0)
key_remove_by_session-keeps_example = key_remove_by_session-keeps gda0 0 none agent0 tt

abbrev creating : Option (Option Str × GError × Agent Str ℕ)
creating =
    key_create gda0 new_url aeskey (some ((keydata, keydata0) ∷ [])) (some (codes "s0")) none agent0

created : creating ≡ some (some new_url, none, state_after agent0 creating)
unfolding skc_library.Base.Table.lookup skc_library.Base.Table.insert skc_library.Base.beq_bytes
    skc_library.Effect.◌>>=◌ skc_library.KeyAgent.State.g_direct_equal
    skc_library.KeyAgent.Cache.generate_fake_id skc_library.KeyAgent.Cache.key_lookup
    skc_library.KeyAgent.Cache.key_set_cache_id skc_library.KeyAgent.Cache.Keys.fake_key_id
    skc_library.KeyAgent.Cache.Keys.key_outcome skc_library.KeyAgent.Cache.Keys.cache_key
    skc_library.KeyAgent.Key.session_lookup skc_library.KeyAgent.Key.cache_new_key
    skc_library.KeyAgent.Key.insert_new_key skc_library.KeyAgent.Key.create_checked
    skc_library.KeyAgent.Key.create_absent skc_library.KeyAgent.Key.key_create_with_cacheid
    skc_library.KeyAgent.Key.key_create
created = refl

key_create-Present_example : is_some (key_lookup (state_after agent0 creating) new_url) ≡ true
key_create-Present_example =
    key_create-Present new_url gda0 aeskey (some ((keydata, keydata0) ∷ [])) (some (codes "s0"))
      new_url none none agent0 (state_after agent0 creating) created

abbrev loading : Option (Bool × GError × Agent Str ℕ)
loading = loadkey_with_moduledata counter (npm0 ∷ []) new_url none none agent0

loaded_new : loading ≡ some (true, none, state_after agent0 loading)
unfolding skc_library.Base.Table.lookup skc_library.Base.Table.insert skc_library.Base.beq_bytes
    skc_library.Base.split skc_library.Base.token skc_library.Effect.◌>>=◌
    skc_library.KeyAgent.State.g_direct_equal skc_library.KeyAgent.State.call
    skc_library.KeyAgent.State.session_at skc_library.KeyAgent.Cache.key_lookup
    skc_library.KeyAgent.Transfer.read_header skc_library.KeyAgent.Transfer.Layout.header
    skc_library.KeyAgent.Stm.stm_get_challenge skc_library.KeyAgent.Stm.stm_load_key
    skc_library.KeyAgent.Load.is_empty skc_library.KeyAgent.Load.url_lacks_tokens
    skc_library.KeyAgent.Load.fresh_request_id skc_library.KeyAgent.Load.propagate
    skc_library.KeyAgent.Load.load_found skc_library.KeyAgent.Load.load_through
    skc_library.KeyAgent.Load.loadkey skc_library.KeyAgent.Load.find_npm
    skc_library.KeyAgent.Load.load_missing skc_library.KeyAgent.Load.loadkey_with_moduledata
    skc_library.Request.keyagent_generate_request_id
loaded_new = refl

loadkey_with_moduledata-Found_example :
    is_some (key_lookup (state_after agent0 loading) new_url) ≡ true
loadkey_with_moduledata-Found_example =
    loadkey_with_moduledata-Found counter (npm0 ∷ []) new_url none none none agent0
      (state_after agent0 loading) loaded_new

-- A second load of the same URL, by then without any NPM.
loadkey_with_moduledata-again_example :
    loadkey_with_moduledata counter [] new_url none none (state_after agent0 loading)
    ≡ some (true, none, state_after agent0 loading)
loadkey_with_moduledata-again_example =
    loadkey_with_moduledata-again counter (npm0 ∷ []) [] new_url none none none none none agent0
      (state_after agent0 loading) loaded_new

abbrev through : Option (Bool × GError × Agent Str ℕ)
through = load_through counter npm0 new_url none none none agent0

went_through : through ≡ some (true, none, state_after agent0 through)
unfolding skc_library.Base.Table.lookup skc_library.Base.Table.insert skc_library.Base.beq_bytes
    skc_library.Effect.◌>>=◌ skc_library.KeyAgent.State.g_direct_equal
    skc_library.KeyAgent.State.call skc_library.KeyAgent.State.session_at
    skc_library.KeyAgent.Cache.key_lookup skc_library.KeyAgent.Transfer.read_header
    skc_library.KeyAgent.Transfer.Layout.header skc_library.KeyAgent.Stm.stm_get_challenge
    skc_library.KeyAgent.Stm.stm_load_key skc_library.KeyAgent.Load.fresh_request_id
    skc_library.KeyAgent.Load.propagate skc_library.KeyAgent.Load.load_found
    skc_library.KeyAgent.Load.load_through skc_library.Request.keyagent_generate_request_id
went_through = refl

load_through-Forgotten_example :
    lookup (next_id counter agent0) (state_after agent0 through).apimodule_loadkey_hash ≡ none
load_through-Forgotten_example =
    load_through-Forgotten counter npm0 new_url none none none none true agent0
      (state_after agent0 through) went_through

ready : Ready (codes "r0") key0 stm0 request0 agent0
unfolding stm_get_by_name lookup g_direct_equal beq_bytes session_at
ready = record {
  own = 0;
  held = 0;
  has_session = refl;
  has_stm = refl;
  has_request = refl;
  holds = refl;
}

has_keydata : lookup keydata key0.attributes ≡ some keydata0
unfolding lookup beq_bytes
has_keydata = refl

stm_load_key-handed_example :
    stm_load_key (codes "r0") key0 none agent0
    ≡ handed
        (codes "r0")
        key0
        stm0
        request0
        agent0
        ready.held
        (5 ∷ 6 ∷ [])
        16
        (7 ∷ 8 ∷ 9 ∷ [])
        none
        agent0
stm_load_key-handed_example =
    stm_load_key-handed (codes "r0") key0 stm0 request0 none agent0 ready (5 ∷ 6 ∷ []) 16
      (7 ∷ 8 ∷ 9 ∷ []) has_keydata (omega arith) (omega arith) (omega arith) (omega arith)

known_type :
    lookup_swktype agent0.swk_type_hash (codes "AES256-GCM")
    ≡ some (make_swktype (codes "AES256-GCM"))
unfolding lookup_swktype session_init lookup g_direct_equal beq_bytes split insert join
known_type = refl

loaded : stm_get_by_name agent0 (codes "SGX") ≡ some stm0
unfolding stm_get_by_name lookup g_direct_equal beq_bytes
loaded = refl

fresh : (p : ℕ) → session_lookup agent0 (codes "s1") ≡ some p → p < length agent0.heap
unfolding session_lookup lookup g_direct_equal beq_bytes
fresh p h = absurd (ground (arith, h))

-- A second session takes the place of the STM's first.
session_create-Stored_example :
    Post
      (agent0.cache_sessions ≡ true)
      (λ _ _ b. Stored gda0 (codes "s1") (4 ∷ 5 ∷ []) b)
      (session_create_with_cacheid gda0
        (codes "r0")
        (codes "SGX")
        (codes "s1")
        (4 ∷ 5 ∷ [])
        (codes "AES256-GCM")
        (negsuc 0)
        none
        agent0)
session_create-Stored_example =
    session_create-Stored gda0 (codes "r0") (codes "SGX") (codes "s1") (codes "AES256-GCM")
      (make_swktype (codes "AES256-GCM")) (4 ∷ 5 ∷ []) (negsuc 0) stm0 none agent0 known_type loaded
      fresh

-- An AES key that was cached is marked for deletion at the start.
abbrev row0 : KeyRow
row0 = record {
  cache_id = pos 3;
  session_id = codes "s0";
  key_type = 2;
  sealed_data = [];
  url = url0;
}

not_rsa : (2 == keytype_code rsakey) ≡ false
unfolding keytype_code
not_rsa = refl

load_key_rows-marks_others_example :
    load_key_rows gda0 (row0 ∷ []) 0 1 false none agent0
    ≡ some (tt, none, record agent0 { global_delete_list = pos 3 ∷ [] })
load_key_rows-marks_others_example =
    load_key_rows-marks_others gda0 (row0 ∷ []) none agent0 (not_rsa, tt)

lookup_swktype-supported_example :
    (is_some (lookup_swktype session_init (codes "AES256-WRAP")) ≡ true)
    ↔ IsOneOf (underscored (codes "AES256-WRAP")) swk_names
lookup_swktype-supported_example = lookup_swktype-supported (codes "AES256-WRAP")
