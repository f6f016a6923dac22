-- ===== src/Pkcs11/Token.antt =====
-- api-module/pkcs11/src/utils.c: finding, creating and logging in to a token.
pub mod Finds
pub mod Opens
use skc_library.Base.{
  ℕ, ◌-◌, Bool, true, false, ◌&&◌, not, ◌||◌, Option, none, some, List, [], ◌∷◌, Str, ◌==◌, length,
  take, beq_bytes, c_str, is_some, if◌then◌else◌,
}
use skc_library.Types.{minus_one}
use skc_library.Effect.{pure, gets, modify, raise, ◌>>=◌, ◌>>◌}
use skc_library.Pkcs11.Cryptoki.{
  Cryptoki, ckr_ok, ckr_general_error, ckr_user_already_logged_in, ck_invalid_handle, cku_so,
  cku_user,
}
use skc_library.Pkcs11.Label.{utf8_to_char, padded_label}
use skc_library.Pkcs11.Uri.{UriData}
use skc_library.Pkcs11.State.{
  Token, ApiModule, Api, need, ck, uri_at, put_uri, lookup_apimodule_token, cache_apimodule_token,
}

-- Whether a token's label, cut to the length of the name, is the name.
unfoldable pub label_matches : Str → Str → Bool
label_matches name buf = elim (utf8_to_char buf) [
  | none ↦ false
  | some label ↦ beq_bytes (take (length name) label) name
]

abbrev pub new_token : Str → Str → Token
new_token label pin = record {
  token_label = label;
  pin = pin;
  challenge = none;
  session = ck_invalid_handle;
  publickey_challenge_handle = ck_invalid_handle;
  privatekey_challenge_handle = ck_invalid_handle;
  wrappingkey_handle = ck_invalid_handle;
}

-- A login counts where the user is logged in already.
unfoldable pub login_rv : ℕ → ℕ
login_rv rv = if rv == ckr_user_already_logged_in then ckr_ok else rv

module _ {W : Type 0} (func_list : Cryptoki W) where
  -- The loop over the slots: the last CK_RV, and the slot whose token has the name.
  unfoldable pub scan_slots : Str → ℕ → List ℕ → Api W (ℕ × Option ℕ)
  scan_slots name rv [] = pure (rv, none)
  scan_slots name rv (slot ∷ slots) = do
    info ← ck (func_list.token_label slot)
    if info.0 == ckr_ok && label_matches name info.1
        then pure (info.0, some slot)
        else scan_slots name info.0 slots

  -- The slot that was found goes into the description.
  unfoldable pub note_slot : ℕ → ℕ → Option ℕ → Api W (ℕ × Bool)
  note_slot p rv none = pure (rv, false)
  note_slot p rv (some slot) = do
    d ← uri_at p
    modify (put_uri p (record d { slot_id = slot }))
    pure (rv, true)

  unfoldable pub find_in_slots : ℕ → Str → List ℕ → Api W (ℕ × Bool)
  find_in_slots p name slots = do found ← scan_slots name ckr_ok slots; note_slot p found.0 found.1

  unfoldable pub list_slots : ℕ → ℕ → Api W (ℕ × Bool)
  list_slots p n = do
    d ← uri_at p
    name ← need d.token_label
    slots ← ck (func_list.slot_list n)
    if not (slots.0 == ckr_ok) || length slots.1 == 0
        then pure (slots.0, false)
        else find_in_slots p name slots.1

  -- apimodule_findtoken, at pointers that are not NULL: the CK_RV and `*is_token_present`.
  unfoldable pub findtoken : ℕ → Api W (ℕ × Bool)
  findtoken p = do
    count ← ck func_list.slot_count
    if not (count.0 == ckr_ok) || count.1 == 0 then pure (count.0, false) else list_slots p count.1

  -- The SO login, the user's pin and the user login on a new token.
  unfoldable pub user_login : ℕ → Str → Api W ℕ
  user_login session pin = do
    ck (func_list.logout session)
    rv ← ck (func_list.login session cku_user pin)
    pure (login_rv rv)

  unfoldable pub set_up_pin : ℕ → Str → Api W ℕ
  set_up_pin session pin = do
    rv ← ck (func_list.init_pin session pin)
    if rv == ckr_ok then user_login session pin else pure rv

  unfoldable pub so_login : ℕ → Str → Api W ℕ
  so_login session pin = do
    rv ← ck (func_list.login session cku_so pin)
    if login_rv rv == ckr_ok then set_up_pin session pin else pure (login_rv rv)

  unfoldable pub open_new_token : ℕ → Str → Api W (ℕ × ℕ)
  open_new_token slot pin = do
    opened ← ck (func_list.open_session slot)
    if opened.0 == ckr_ok then (do rv ← so_login opened.1 pin; pure (rv, opened.1)) else pure opened

  unfoldable pub init_last_slot : ℕ → UriData → Api W (ℕ × ℕ)
  init_last_slot slot d = do
    name ← need d.token_label
    pin ← need d.pin
    rv ← ck (func_list.init_token slot pin (padded_label (c_str name)))
    if rv == ckr_ok then open_new_token slot pin else pure (rv, ck_invalid_handle)

  -- apimodule_createtoken: the CK_RV and the session. The last slot is the free one.
  unfoldable pub createtoken : ℕ → Api W (ℕ × ℕ)
  createtoken p = do
    d ← uri_at p
    count ← ck func_list.slot_count
    if not (count.0 == ckr_ok) || count.1 == 0
        then pure (count.0, ck_invalid_handle)
        else init_last_slot (count.1 - 1) d

  -- apimodule_findobject: the CK_RV and `*is_present`.
  unfoldable pub class_of_first : ℕ → List ℕ → Api W (ℕ × Bool)
  class_of_first session [] = pure (ckr_ok, false)
  class_of_first session (object ∷ objects) = do
    rv ← ck (func_list.get_class session object)
    pure (rv, true)

  unfoldable pub find_with : ℕ → Str → Str → Api W (ℕ × Bool)
  find_with session label id = do
    start ← ck (func_list.find_objects_init session label id)
    if start == ckr_ok
        then (do
          found ← ck (func_list.find_objects session 16)
          if found.0 == ckr_ok
              then (do
                end ← ck (func_list.find_objects_final session)
                if end == ckr_ok then class_of_first session found.1 else pure (end, false))
              else pure (found.0, false))
        else pure (start, false)

  unfoldable pub findobject : ℕ → UriData → Api W (ℕ × Bool)
  findobject session d = do label ← need d.key_label; id ← need d.key_id; find_with session label id

  -- The last part of `init_apimodule_token`: the CK_RV and the session, once the token is there.
  unfoldable pub open_token : ℕ → Api W (ℕ × ℕ)
  open_token p = do
    d ← uri_at p
    pin ← need d.pin
    opened ← ck (func_list.open_session d.slot_id)
    if opened.0 == ckr_ok
        then (do
          rv ← user_login opened.1 pin
          if rv == ckr_ok
              then pure (rv, opened.1)
              else (do raise minus_one; pure (rv, ck_invalid_handle)))
        else (do raise minus_one; pure (opened.0, ck_invalid_handle))

  -- `rv` is CKR_OK where the second search succeeds without finding the token.
  unfoldable pub find_and_open : ℕ → Api W (ℕ × ℕ)
  find_and_open p = do
    found ← findtoken p
    if not (found.0 == ckr_ok) || not found.1
        then (do raise minus_one; pure (found.0, ck_invalid_handle))
        else open_token p

  -- After a token is made, the library is started again for its new slots.
  unfoldable pub restart : ℕ → Api W (ℕ × ℕ) → Api W (ℕ × ℕ)
  restart session next = do
    ck (func_list.logout session)
    ck (func_list.close_session session)
    ck func_list.finalize
    ck func_list.initialize
    next

  unfoldable pub make_token : ℕ → Bool → Api W (ℕ × ℕ)
  make_token p false = pure (ckr_general_error, ck_invalid_handle)
  make_token p true = do
    made ← createtoken p
    if made.0 == ckr_ok
        then restart made.1 (find_and_open p)
        else (do raise minus_one; pure (made.0, ck_invalid_handle))

  unfoldable pub token_session : ℕ → Bool → Api W (ℕ × ℕ)
  token_session p create = do
    found ← findtoken p
    if found.0 == ckr_ok
        then (if found.1 then find_and_open p else make_token p create)
        else (do raise minus_one; pure (found.0, ck_invalid_handle))

  unfoldable pub keep_token : Str → Str → ℕ → ℕ → Api W (Option Token)
  keep_token label pin rv session =
      if rv == ckr_ok
      then (do
        modify (cache_apimodule_token (record (new_token label pin) { session = session }))
        pure (some (record (new_token label pin) { session = session })))
      else pure none

  -- init_apimodule_token
  unfoldable pub init_apimodule_token : ℕ → Bool → Api W (Option Token)
  init_apimodule_token p create = do
    d ← uri_at p
    name ← need d.token_label
    pin ← need d.pin
    outcome ← token_session p create
    keep_token (c_str name) (c_str pin) outcome.0 outcome.1

  -- The token of a label, made or logged in to if it is not known.
  unfoldable pub token_for : ℕ → Str → Bool → Api W (Option Token)
  token_for p name create = do
    known ← gets (lookup_apimodule_token name)
    if is_some known then pure known else init_apimodule_token p create
