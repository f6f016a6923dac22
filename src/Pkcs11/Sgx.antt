-- ===== src/Pkcs11/Sgx.antt =====
-- api-module/pkcs11/src/apimodule-sgx.cpp: keys, wrapping keys and challenges of the SGX tokens.
pub mod Wrapping
use skc_library.Base.{
  ℕ, ◌*◌, ◌%◌, ◌^◌, Bool, true, false, Option, none, some, List, Str, codes, ◌++◌, ◌==◌, length,
  beq_bytes, drop, c_str, if◌then◌else◌,
}
use skc_library.Types.{Keytype, rsakey, aeskey, invalidkey, minus_one}
use skc_library.Details.{LoadkeyDetails, SessionDetails, ChallengeDetails, ChallengeRequest}
use skc_library.Effect.{pure, gets, modify, raise, ◌>>=◌, ◌>>◌}
use skc_library.Pkcs11.Cryptoki.{
  Cryptoki, Template, ckk_rsa, ckk_aes, Mechanism, aes_gcm, rsa_pkcs_oaep_sha1,
  rsa_pkcs_key_pair_gen, export_ecdsa_quote, ckr_ok, ckr_arguments_bad, cko_public_key,
  cko_private_key, cko_secret_key,
}
use skc_library.Pkcs11.State.{
  Token, Api, need, ck, uri_at, lookup_apimodule_token, cache_apimodule_token,
}
use skc_library.Pkcs11.Uri.{UriData}

abbrev pub quote_label : Str
quote_label = codes "quoting-key"

abbrev pub quote_id : Str
quote_id = codes "80000001"

abbrev pub swk_label : Str
swk_label = codes "SWK"

abbrev pub swk_id : Str
swk_id = codes "80000002"

-- A template that says private and no more.
abbrev pub private_key : ℕ → Template
private_key class = record {
  object_class = class;
  key_type = ckk_rsa;
  label = codes "";
  id = codes "";
  token = false;
  is_private = true;
  encrypt = false;
  decrypt = false;
  sign = false;
  verify = false;
  wrap = false;
  unwrap = false;
  modulus_bits = none;
}

abbrev pub rsa_template : Str → Str → Template
rsa_template label id = record (private_key cko_private_key) {
  label = label;
  id = id;
  token = true;
  decrypt = true;
  sign = true;
  unwrap = true;
}

abbrev pub aes_template : Str → Str → Template
aes_template label id = record (private_key cko_secret_key) {
  key_type = ckk_aes;
  label = label;
  id = id;
  decrypt = true;
  encrypt = true;
  unwrap = true;
}

abbrev pub swk_template : Template
swk_template = record (private_key cko_secret_key) {
  key_type = ckk_aes;
  label = swk_label;
  id = swk_id;
  decrypt = true;
  unwrap = true;
}

abbrev pub quote_public_template : Str → Str → Template
quote_public_template label id = record (private_key cko_public_key) {
  label = label;
  id = id;
  encrypt = true;
  verify = true;
  wrap = true;
  modulus_bits = some 2048;
}

abbrev pub quote_private_template : Str → Str → Template
quote_private_template label id = record (private_key cko_private_key) {
  label = label;
  id = id;
  decrypt = true;
  sign = true;
  unwrap = true;
}

-- The parameters of AES GCM, from an initialisation vector that must not be NULL. The vector's length
-- is a `guint`, the tag's an `unsigned long`.
unfoldable pub gcm : List ℕ → ℕ → Mechanism
gcm iv tag_size = aes_gcm iv (length iv * 8 % 2 ^ 32) (tag_size * 8 % 2 ^ 64)

-- What the quote library lays down, and the layout of the structures that hold it.
pub record QuoteLayout : Type 0 where
  -- sizeof(CK_RSA_PUBLIC_KEY_PARAMS)
  pub params_size : ℕ
  pub exponent_len : List ℕ → ℕ
  pub modulus_len : List ℕ → ℕ
  -- The bytes of `struct keyagent_sgx_quote_info`, from its three lengths.
  pub quote_info : ℕ → ℕ → ℕ → List ℕ

module _ {W : Type 0} where
  -- The token of the key behind `module_data`; each failure is the same error.
  unfoldable pub bad_input : {A : Type 0} → A → Api W A
  bad_input x = do raise minus_one; pure x

  unfoldable pub with_token : {A : Type 0} → A → Option ℕ → (UriData → Token → Api W A) → Api W A
  with_token failed none f = bad_input failed
  with_token failed (some p) f = do
    d ← uri_at p
    elim d.token_label [
      | none ↦ bad_input failed
      | some name ↦ do
        token ← gets (lookup_apimodule_token (c_str name))
        elim token [ none ↦ bad_input failed | some t ↦ f d t ]
    ]

  module _ (func_list : Cryptoki W) where
    -- Unwrapping a key with the token's wrapping key.
    unfoldable pub unwrap_with : Template → LoadkeyDetails ℕ → Token → Api W ℕ
    unwrap_with template details t = do
      iv ← need details.iv
      unwrapped ← ck (
          func_list.unwrap_key t.session (gcm iv details.tag_size) t.wrappingkey_handle details.key
            template)
      pure unwrapped.0

    unfoldable pub sgx_unwrap_rsa_key : LoadkeyDetails ℕ → UriData → Token → Api W ℕ
    sgx_unwrap_rsa_key details d t = do
      label ← need d.key_label
      id ← need d.key_id
      unwrap_with (rsa_template label id) details t

    unfoldable pub sgx_unwrap_symmetric_key : LoadkeyDetails ℕ → UriData → Token → Api W ℕ
    sgx_unwrap_symmetric_key details d t = do
      label ← need d.key_label
      id ← need d.key_id
      unwrap_with (aes_template label id) details t

    unfoldable pub unwrap_for : Keytype → LoadkeyDetails ℕ → UriData → Token → Api W ℕ
    unwrap_for aeskey details d t = sgx_unwrap_symmetric_key details d t
    unwrap_for rsakey details d t = sgx_unwrap_rsa_key details d t
    unwrap_for invalidkey details d t = pure ckr_arguments_bad

    unfoldable pub sgx_load_key : LoadkeyDetails ℕ → Api W Bool
    sgx_load_key details = with_token false details.module_data λ d t. do
      rv ← unwrap_for details.type details d t
      if rv == ckr_ok then pure true else bad_input false

    -- generate_rsa_keypair: the handles are stored whatever the call returns.
    unfoldable pub generate_rsa_keypair : Token → Str → Str → Api W (ℕ × Token)
    generate_rsa_keypair t label id = do
      pair ← ck (
          func_list.generate_key_pair t.session rsa_pkcs_key_pair_gen
            (quote_public_template label id) (quote_private_template label id))
      modify (
          cache_apimodule_token (record t {
            publickey_challenge_handle = pair.1;
            privatekey_challenge_handle = pair.2;
          }))
      pure (
        pair.0,
        record t { publickey_challenge_handle = pair.1; privatekey_challenge_handle = pair.2 },
      )

    module _ (layout : QuoteLayout) where
      -- The challenge: the lengths, then what follows the key's parameters in the quote.
      unfoldable pub challenge_of : List ℕ → List ℕ
      challenge_of quote =
          layout.quote_info (layout.exponent_len quote) (layout.modulus_len quote) (length quote)
          ++ drop layout.params_size quote

      unfoldable pub keep_challenge : Token → List ℕ → Api W Bool
      keep_challenge t quote = do
        modify (cache_apimodule_token (record t { challenge = some (challenge_of quote) }))
        pure true

      unfoldable pub take_quote : Token → Mechanism → ℕ → Api W Bool
      take_quote t mechanism size = do
        quote ← ck (func_list.wrap_key t.session mechanism t.publickey_challenge_handle size)
        if quote.0 == ckr_ok then keep_challenge t quote.1 else bad_input false

      unfoldable pub size_quote : Token → Mechanism → Api W Bool
      size_quote t mechanism = do
        size ← ck (func_list.wrapped_size t.session mechanism t.publickey_challenge_handle)
        if size.0 == ckr_ok then take_quote t mechanism size.1 else bad_input false

      unfoldable pub make_quote : Token → Mechanism → Api W Bool
      make_quote t mechanism = do
        pair ← generate_rsa_keypair t quote_label quote_id
        if pair.0 == ckr_ok then size_quote pair.1 mechanism else bad_input false

      -- sgx_get_challenge, at a request that is not NULL.
      unfoldable pub sgx_get_challenge : ChallengeDetails ℕ → ChallengeRequest → Api W Bool
      sgx_get_challenge details request =
          if beq_bytes request.attestation_type (codes "ECDSA")
          then with_token false details.module_data
              (λ d t. make_quote t (export_ecdsa_quote request.launch_policy details.nonce))
          else bad_input false

    unfoldable pub keep_wrapping_key : Token → ℕ → Api W Bool
    keep_wrapping_key t handle = do
      modify (cache_apimodule_token (record t { wrappingkey_handle = handle }))
      pure true

    unfoldable pub sgx_set_wrapping_key : SessionDetails ℕ → Api W Bool
    sgx_set_wrapping_key details = with_token false details.module_data λ d t. do
      unwrapped ← ck (
          func_list.unwrap_key t.session rsa_pkcs_oaep_sha1 t.privatekey_challenge_handle
            details.session swk_template)
      if unwrapped.0 == ckr_ok then keep_wrapping_key t unwrapped.1 else bad_input false
