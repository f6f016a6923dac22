-- ===== src/Pkcs11/OnDemand.antt =====
-- api-module/pkcs11/src/pkcs11-apimodule.cpp: loading keys on demand and at the start.
-- The key agent's `keyagent_loadkey_with_moduledata` is the parameter `loadkey`; the description
-- that it is given is the frame on top of the stack.
pub mod Pin
use skc_library.Base.{
  ℕ, ◌+◌, Bool, true, false, not, ◌||◌, ◌++◌, Option, none, some, List, [], ◌∷◌, Str, codes, colon,
  join, ◌==◌, length, take, beq_bytes, c_str, is_some, if◌then◌else◌,
}
use skc_library.Types.{
  GError, keyagent_error, apimodule_invalid_conf_value, apimodule_api_return_error,
}
use skc_library.Effect.{pure, fault, gets, modify, own_error, set_error, ◌>>=◌, ◌>>◌}
use skc_library.Pkcs11.Cryptoki.{
  Cryptoki, ckr_ok, ckr_general_error, ckr_arguments_bad, ckr_cryptoki_already_initialized,
  cku_user,
}
use skc_library.Pkcs11.State.{Token, ApiModule, Api, need, ck, uri_at}
use skc_library.Pkcs11.Uri.{P11Uri, UriData, uri_to_uri_data}
use skc_library.Pkcs11.Token.{findtoken, findobject, token_for, login_rv}

-- The URL under which the key agent knows a key: `TOKEN:KEY-ID:LABEL:PKCS#11 URI`.
unfoldable pub key_url : Str → Str → Str → Str → Str
key_url name id label uri = join colon (c_str name ∷ c_str id ∷ c_str label ∷ uri ∷ [])

module _ {W : Type 0} where
  unfoldable pub push_frame : UriData → Api W ℕ
  push_frame d = do
    p ← gets (λ m. length m.frames)
    modify λ m. record m { frames = m.frames ++ d ∷ [] }
    pure p

  unfoldable pub pop_frame : ℕ → Api W (Unit {0})
  pop_frame p = modify λ m. record m { frames = take p m.frames }

  unfoldable pub current_error : Api W GError
  current_error e m = some (e, e, m)

  -- `k_critical_error` reads the message of the error.
  unfoldable pub report : GError → Api W (Unit {0})
  report none = fault
  report (some x) = pure tt

  module _ (parse : Str → Option P11Uri) (func_list : Cryptoki W)
      (loadkey : Str → ℕ → Api W Bool) where
    -- The key agent is asked for the key.
    unfoldable pub ask_keyagent : ℕ → UriData → Str → Api W ℕ
    ask_keyagent p d uri = do
      name ← need d.token_label
      id ← need d.key_id
      label ← need d.key_label
      loaded ← loadkey (key_url name id label uri) p
      x ← current_error
      if loaded then pure ckr_ok else (do report x; pure ckr_arguments_bad)

    unfoldable pub load_if_absent : ℕ → UriData → Str → Token → Api W ℕ
    load_if_absent p d uri t = do
      found ← findobject func_list t.session d
      if not (found.0 == ckr_ok) || found.1 then pure found.0 else ask_keyagent p d uri

    -- With the token there, the pin must be its pin and the key must be missing.
    unfoldable pub load_in : ℕ → UriData → Str → Option Token → Api W ℕ
    load_in p d uri none = ask_keyagent p d uri
    load_in p d uri (some t) = do
      pin ← need d.pin
      if beq_bytes (c_str t.pin) (c_str pin)
          then load_if_absent p d uri t
          else pure ckr_general_error

    unfoldable pub find_and_load : ℕ → UriData → Str → Api W ℕ
    find_and_load p d uri = do
      name ← need d.token_label
      t ← token_for func_list p (c_str name) false
      d ← uri_at p
      load_in p d uri t

    -- One error variable serves the token and the key agent.
    unfoldable pub load_described : UriData → Str → Api W ℕ
    load_described d uri = do
      p ← push_frame d
      outcome ← own_error (find_and_load p d uri)
      pop_frame p
      pure outcome.0

    -- C_OnDemand_KeyLoad, at a URI that is not NULL.
    unfoldable pub on_demand_keyload : Str → Api W ℕ
    on_demand_keyload uri = elim (uri_to_uri_data parse uri) [
      | none ↦ pure ckr_arguments_bad
      | some d ↦ load_described d uri
    ]

    -- apimodule_load_uri
    unfoldable pub apimodule_load_uri : Option Str → Api W Bool
    apimodule_load_uri none = pure false
    apimodule_load_uri (some uri) =
        if beq_bytes uri []
        then pure false
        else (do rv ← on_demand_keyload uri; pure (rv == ckr_ok))

    -- The loop over the lines of the preload file, with the value of `ret` so far.
    unfoldable pub preload_lines : Bool → List Str → Api W Bool
    preload_lines ret [] = pure ret
    preload_lines ret (uri ∷ lines) = do
      rv ← on_demand_keyload uri
      if rv == ckr_ok
          then preload_lines true lines
          else (do set_error (keyagent_error apimodule_invalid_conf_value); pure false)

    -- apimodule_preload_keys: `none` is a file that does not open.
    unfoldable pub preload_keys : Str → Option (List Str) → Api W Bool
    preload_keys name file = if beq_bytes name (codes "NIL") then pure false else elim file [
      | none ↦ do set_error (keyagent_error apimodule_invalid_conf_value); pure false
      | some lines ↦ preload_lines false lines
    ]

    unfoldable pub preload_first : Str → Option (List Str) → Api W (Unit {0})
    preload_first name file = do
      loaded ← own_error (preload_keys name file)
      if loaded.0 then pure tt else report loaded.1

    -- C_Initialize; `first` says that no call went this far before.
    unfoldable pub c_initialize : Bool → Str → Option (List Str) → Api W ℕ
    c_initialize first name file = do
      ret ← ck func_list.initialize
      if ret == ckr_ok || ret == ckr_cryptoki_already_initialized
          then (if first then (do preload_first name file; pure ret) else pure ret)
          else pure ret

    unfoldable pub child_login : UriData → Api W (Unit {0})
    child_login d = do
      pin ← need d.pin
      opened ← ck (func_list.open_session d.slot_id)
      if opened.0 == ckr_ok
          then (do ck (func_list.login opened.1 cku_user pin); pure tt)
          else pure tt

    unfoldable pub child_token : UriData → Api W (Unit {0})
    child_token d = do
      p ← push_frame d
      found ← findtoken func_list p
      d ← uri_at p
      pop_frame p
      if found.0 == ckr_ok then (if found.1 then child_login d else pure tt) else pure tt

    -- apimodule_prepare_child, once the library is started again: it logs in to the token of the
    -- preload file's first line.
    unfoldable pub prepare_child : Option (List Str) → Api W (Unit {0})
    prepare_child none = pure tt
    prepare_child (some []) = pure tt
    prepare_child (some (uri ∷ lines)) = elim (uri_to_uri_data parse uri) [
      | none ↦ pure tt
      | some d ↦ child_token d
    ]
