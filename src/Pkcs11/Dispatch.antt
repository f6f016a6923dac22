-- ===== src/Pkcs11/Dispatch.antt =====
-- api-module/pkcs11/src/pkcs11-apimodule.cpp: the callbacks that the key agent is given. They find
-- the token and go on to the API of the module's mode, of which there is one, SGX.
pub mod Unwraps
use skc_library.Base.{
  ℕ, Bool, true, false, ◌&&◌, Option, none, some, List, Str, codes, ◌==◌, beq_bytes, c_str, is_some,
  if◌then◌else◌,
}
use skc_library.Types.{Keytype, rsakey, aeskey, invalidkey}
use skc_library.Details.{LoadkeyDetails, SessionDetails, ChallengeDetails, ChallengeRequest}
use skc_library.Effect.{pure, fault, gets, modify, ◌>>=◌, ◌>>◌}
use skc_library.Pkcs11.Cryptoki.{Cryptoki, cko_data, cko_private_key, cko_secret_key}
use skc_library.Pkcs11.State.{Token, Api, uri_at, put_uri, lookup_apimodule_token}
use skc_library.Pkcs11.Uri.{UriData}
use skc_library.Pkcs11.Token.{token_for}
use skc_library.Pkcs11.Sgx.{
  QuoteLayout, with_token, bad_input, sgx_load_key, sgx_get_challenge, sgx_set_wrapping_key,
}

-- Whether `apimodule_api_hash` has operations for a label.
unfoldable pub has_api : Str → Bool
has_api label = beq_bytes label (codes "SGX")

-- The object class of a kind of key.
unfoldable pub class_of : Keytype → ℕ
class_of aeskey = cko_secret_key
class_of rsakey = cko_private_key
class_of invalidkey = cko_private_key

-- The type of a description that has none yet.
unfoldable pub settled_type : ℕ → UriData → UriData
settled_type type d = if d.type == cko_data then record d { type = type } else d

module _ {W : Type 0} (func_list : Cryptoki W) where
  -- The description takes the type, and the key goes on if the types agree.
  unfoldable pub load_typed : ℕ → LoadkeyDetails ℕ → UriData → Api W Bool
  load_typed p details d = do
    modify (put_uri p (settled_type (class_of details.type) d))
    if (settled_type (class_of details.type) d).type == class_of details.type
        then sgx_load_key func_list details
        else bad_input false

  unfoldable pub load_named : ℕ → LoadkeyDetails ℕ → UriData → Option Str → Api W Bool
  load_named p details d none = bad_input false
  load_named p details d (some name) = do
    t ← gets (lookup_apimodule_token (c_str name))
    if is_some t && has_api details.label then load_typed p details d else bad_input false

  -- apimodule_load_key
  unfoldable pub apimodule_load_key : LoadkeyDetails ℕ → Api W Bool
  apimodule_load_key details = elim details.module_data [
    | none ↦ bad_input false
    | some p ↦ do d ← uri_at p; load_named p details d d.token_label
  ]

  -- apimodule_set_wrapping_key
  unfoldable pub apimodule_set_wrapping_key : SessionDetails ℕ → Api W Bool
  apimodule_set_wrapping_key details = with_token false details.module_data λ d t.
      if has_api details.label then sgx_set_wrapping_key func_list details else bad_input false

  module _ (layout : QuoteLayout) where
    -- The challenge of a token, through the pointer that was looked up before.
    unfoldable pub challenge_at : Str → Api W (Option (List ℕ))
    challenge_at name = do
      t ← gets (lookup_apimodule_token name)
      elim t [ none ↦ fault | some t ↦ pure t.challenge ]

    unfoldable pub challenge_from :
        Str → ChallengeDetails ℕ → ChallengeRequest → Option Token → Api W (Bool × Option (List ℕ))
    challenge_from name details request t =
        if is_some t && has_api details.label
        then (do
          made ← sgx_get_challenge func_list layout details request
          if made then (do c ← challenge_at name; pure (true, c)) else pure (false, none))
        else bad_input (false, none)

    unfoldable pub challenge_named :
        ℕ → Option Str → ChallengeDetails ℕ → ChallengeRequest → Api W (Bool × Option (List ℕ))
    challenge_named p none details request = bad_input (false, none)
    challenge_named p (some name) details request = do
      t ← token_for func_list p (c_str name) true
      challenge_from (c_str name) details request t

    -- apimodule_get_challenge, at a label that is not NULL: the result and `details->challenge`.
    unfoldable pub apimodule_get_challenge :
        ChallengeDetails ℕ → ChallengeRequest → Api W (Bool × Option (List ℕ))
    apimodule_get_challenge details request = elim details.module_data [
      | none ↦ bad_input (false, none)
      | some p ↦ do d ← uri_at p; challenge_named p d.token_label details request
    ]
