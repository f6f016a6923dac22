-- ===== src/KeyAgent/Load.antt =====
-- key-agent/src/intf.cpp: loading a key. `g_rw_lock_writer_lock` guards a load as a whole, so a
-- load is one step. The NPMs are those that `keyagent_init` found, in the order of the table.
pub mod Finds
use skc_library.Base.{
  ℕ, Bool, true, false, ◌||◌, bytes_eq, beq_bytes, ◌++◌, Option, none, some, List, [], ◌∷◌, Str,
  is_some, codes, colon, split, token, if◌then◌else◌,
}
use skc_library.Base.Table.{Table, lookup, insert, remove}
use skc_library.Types.{GError, keyagent_error, npm_url_unsupported, g_propagate_error}
use skc_library.Request.{keyagent_generate_request_id}
use skc_library.Details.{ApimoduleOps}
use skc_library.KeyAgent.State.{Key, Agent, Action, Request}
use skc_library.Effect.{pure, fault, gets, modify, raise, own_error, ◌>>=◌, ◌>>◌}
use skc_library.KeyAgent.Cache.{key_lookup}
use skc_library.KeyAgent.Stm.{
  stm_get_names, stm_get_apimodule_enabled_names, stm_apimodule_enable, stm_load_key, put_request,
}

-- keyagent_keyload_details, less the options of the connection, which the key agent only copies
-- from its configuration.
pub record KeyloadDetails : Type 0 where
  pub request_id : Str
  pub url : Str
  pub stm_names : Str

-- keyagent_npm_real: a network protocol module. It works on the key agent through its callbacks.
pub record Npm (D W : Type 0) : Type 0 where
  pub label : Str
  pub initialized : Bool
  pub register : Str → Action D W Bool
  pub key_load : KeyloadDetails → Action D W Bool

-- The text of a token, compared as `g_strcmp0` does: NULL is not the empty text.
unfoldable pub is_empty : Option Str → Bool
is_empty none = false
is_empty (some s) = beq_bytes s []

-- The check of the URL's first two tokens; `none` reads past the end of the vector.
unfoldable pub url_lacks_tokens : Str → Option Bool
url_lacks_tokens url = elim (token (split colon url) 0) [
  | none ↦ none
  | some t0 ↦
      if is_empty t0
      then some true
      else elim (token (split colon url) 1) [ none ↦ none | some t1 ↦ some (is_empty t1) ]
]

module _ {D W : Type 0} where
  -- keyagent_apimodule_register, with an error variable that is not NULL and holds no error.
  unfoldable pub apimodule_register : Option Str → ApimoduleOps D W → Action D W Bool
  apimodule_register label ops = do
    modify λ a. record a { apimodule_ops = ops }
    elim label [ none ↦ pure true | some l ↦ stm_apimodule_enable l ]

  module _ (random_int : W → ℕ × W) where
    unfoldable pub fresh_request_id : Action D W Str
    fresh_request_id e a =
        let (id, w) = keyagent_generate_request_id random_int a.world in
        some (id, e, record a { world = w })

    unfoldable pub propagate : GError → Action D W (Unit {0})
    propagate src e a = some (tt, g_propagate_error e src, a)

    -- The part of `_loadkey` after the NPM's own load: the key goes to the STM, unless the
    -- registration left an error or there is no key. The error is that of `_loadkey` itself.
    unfoldable pub load_found : Str → GError → Option Key → Action D W (Bool × GError)
    load_found request_id (some x) key = pure (true, some x)
    load_found request_id none none = pure (true, none)
    load_found request_id none (some key) = own_error (stm_load_key request_id key)

    -- The part of `_loadkey` after an NPM has taken the URL.
    unfoldable pub load_through : Npm D W → Str → Option D → GError → Action D W Bool
    load_through npm url module_data tmp_error = do
      request_id ← fresh_request_id
      modify (
          put_request request_id
            (record { module_data = module_data; npm_name = npm.label; stm_name = none }))
      names ←
          gets (λ a.
            if a.apimodule_enabled then stm_get_apimodule_enabled_names a else stm_get_names a)
      npm.key_load (record { request_id = request_id; url = url; stm_names = names })
      key ← gets (λ a. key_lookup a url)
      loaded ← load_found request_id tmp_error key
      modify λ a. record a { apimodule_loadkey_hash = remove request_id a.apimodule_loadkey_hash }
      propagate loaded.1
      pure loaded.0

    -- _loadkey
    unfoldable pub loadkey : Str → Option D → Npm D W → Action D W Bool
    loadkey url module_data npm =
        if npm.initialized
        then (do
          registered ← own_error (npm.register url)
          if registered.0 then load_through npm url module_data registered.1 else pure false)
        else pure false

    -- `g_hash_table_find`: the first NPM for which `_loadkey` returns TRUE.
    unfoldable pub find_npm : Str → Option D → List (Npm D W) → Action D W Bool
    find_npm url module_data [] = pure false
    find_npm url module_data (npm ∷ npms) = do
      found ← loadkey url module_data npm
      if found then pure true else find_npm url module_data npms

    unfoldable pub load_missing : Str → Option D → List (Npm D W) → Action D W Bool
    load_missing url module_data npms = do
      found ← find_npm url module_data npms
      if found
          then gets (λ a. is_some (key_lookup a url))
          else (do raise (keyagent_error npm_url_unsupported); pure false)

    -- keyagent_loadkey_with_moduledata, at a URL that is not NULL.
    unfoldable pub loadkey_with_moduledata : List (Npm D W) → Str → Option D → Action D W Bool
    loadkey_with_moduledata npms url module_data = elim (url_lacks_tokens url) [
      | none ↦ fault
      | some true ↦ pure false
      | some false ↦ do
        key ← gets (λ a. key_lookup a url)
        if is_some key then pure true else load_missing url module_data npms
    ]
