-- ===== src/Pkcs11/Cryptoki.antt =====
-- The Cryptoki library behind the API module, `func_list` in the source, as a parameter: each call
-- acts on the outside world `W` and returns its CK_RV. The constants are those of PKCS #11.
use skc_library.Base.{ℕ, Bool, Option, List, Str}
use skc_library.Details.{LaunchPolicy}

abbrev pub ckr_ok : ℕ
ckr_ok = 0

abbrev pub ckr_general_error : ℕ
ckr_general_error = 5

abbrev pub ckr_arguments_bad : ℕ
ckr_arguments_bad = 7

abbrev pub ckr_user_already_logged_in : ℕ
ckr_user_already_logged_in = 0x100

abbrev pub ckr_cryptoki_already_initialized : ℕ
ckr_cryptoki_already_initialized = 0x191

abbrev pub ck_invalid_handle : ℕ
ck_invalid_handle = 0

abbrev pub cko_data : ℕ
cko_data = 0

abbrev pub cko_public_key : ℕ
cko_public_key = 2

abbrev pub cko_private_key : ℕ
cko_private_key = 3

abbrev pub cko_secret_key : ℕ
cko_secret_key = 4

abbrev pub cku_so : ℕ
cku_so = 0

abbrev pub cku_user : ℕ
cku_user = 1

pub data KeyType : Type 0 where
  ckk_rsa ckk_aes : KeyType

pub data Mechanism : Type 0 where
  aes_gcm : (iv : List ℕ) (iv_bits tag_bits : ℕ) → Mechanism
  rsa_pkcs_oaep_sha1 : Mechanism
  rsa_pkcs_key_pair_gen : Mechanism
  -- A quote over the RSA public key, with the launch policy and the nonce.
  export_ecdsa_quote : (policy : LaunchPolicy) (nonce : List ℕ) → Mechanism

-- A key template: the attributes that the source gives, the Boolean ones by name.
pub record Template : Type 0 where
  pub object_class : ℕ
  pub key_type : KeyType
  pub label : Str
  pub id : Str
  pub token : Bool
  pub is_private : Bool
  pub encrypt : Bool
  pub decrypt : Bool
  pub sign : Bool
  pub verify : Bool
  pub wrap : Bool
  pub unwrap : Bool
  pub modulus_bits : Option ℕ

-- `C_GetSlotList` is called for the number of slots and for the slots, `C_WrapKey` for the size of
-- the quote and for the quote.
pub record Cryptoki (W : Type 0) : Type 0 where
  pub slot_count : W → (ℕ × ℕ) × W
  pub slot_list : ℕ → W → (ℕ × List ℕ) × W
  pub token_label : ℕ → W → (ℕ × Str) × W
  pub init_token : ℕ → Str → Str → W → ℕ × W
  pub open_session : ℕ → W → (ℕ × ℕ) × W
  pub close_session : ℕ → W → ℕ × W
  pub login : ℕ → ℕ → Str → W → ℕ × W
  pub logout : ℕ → W → ℕ × W
  pub init_pin : ℕ → Str → W → ℕ × W
  pub finalize : W → ℕ × W
  pub initialize : W → ℕ × W
  pub find_objects_init : ℕ → Str → Str → W → ℕ × W
  pub find_objects : ℕ → ℕ → W → (ℕ × List ℕ) × W
  pub find_objects_final : ℕ → W → ℕ × W
  pub get_class : ℕ → ℕ → W → ℕ × W
  pub unwrap_key : ℕ → Mechanism → ℕ → List ℕ → Template → W → (ℕ × ℕ) × W
  pub generate_key_pair : ℕ → Mechanism → Template → Template → W → (ℕ × ℕ × ℕ) × W
  pub wrapped_size : ℕ → Mechanism → ℕ → W → (ℕ × ℕ) × W
  pub wrap_key : ℕ → Mechanism → ℕ → ℕ → W → (ℕ × List ℕ) × W
