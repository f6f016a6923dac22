-- ===== src/Pkcs11/Uri.antt =====
-- api-module/pkcs11/src/utils.c: from a PKCS #11 URI to the description of a key. The URI parser is
-- libp11-kit's, a parameter.
pub mod Accepts
use skc_library.Base.{
  ℕ, Bool, true, false, ◌&&◌, ◌||◌, not, Option, none, some, Str, codes, ltb, leb, ◌==◌, length,
  get_or, beq_bytes, contains, c_str, if◌then◌else◌,
}
use skc_library.Pkcs11.Cryptoki.{cko_secret_key, cko_private_key}
use skc_library.Pkcs11.Label.{utf8_to_char}

abbrev pub min_pin_len : ℕ
min_pin_len = 4

abbrev pub max_pin_len : ℕ
max_pin_len = 255

abbrev pub min_keyid_len : ℕ
min_keyid_len = 36

-- The token label that names the key server.
abbrev pub kms_prefix_token : Str
kms_prefix_token = codes "KMS"

-- What `p11_kit_uri_parse` reads; the token label is the 32-byte field.
pub record P11Uri : Type 0 where
  pub token_label : Str
  pub label : Option Str
  pub id : Option Str
  pub class : Option ℕ
  pub pin_value : Option Str

-- apimodule_uri_data, with NULL strings as `none`.
pub record UriData : Type 0 where
  pub token_label : Option Str
  pub key_label : Option Str
  pub key_id : Option Str
  pub pin : Option Str
  pub type : ℕ
  pub slot_id : ℕ

-- The kind of key: the URI must say private or secret.
unfoldable pub uri_type : Str → P11Uri → Option ℕ
uri_type uri u =
    if contains (codes "type=") uri
    then elim u.class [
      | none ↦ none
      | some c ↦ if not (c == cko_secret_key) && not (c == cko_private_key) then none else some c
    ]
    else none

unfoldable pub uri_pin : P11Uri → Option Str
uri_pin u = elim u.pin_value [
  | none ↦ none
  | some pin ↦
      if ltb (length pin) min_pin_len || ltb max_pin_len (length pin) then none else some pin
]

unfoldable pub uri_token : P11Uri → Option Str
uri_token u = elim (utf8_to_char u.token_label) [
  | none ↦ none
  | some name ↦ if beq_bytes (c_str name) kms_prefix_token then some name else none
]

unfoldable pub uri_id : P11Uri → Option Str
uri_id u = elim u.id [
  | none ↦ none
  | some id ↦ if ltb (length id) min_keyid_len then none else some id
]

-- The checks of `apimodule_uri_to_uri_data` on a parsed URI, in their order.
unfoldable pub uri_fields : Str → P11Uri → Option UriData
uri_fields uri u = elim u.label [
  | none ↦ none
  | some label ↦ elim (uri_id u) [
    | none ↦ none
    | some id ↦ elim (uri_type uri u) [
      | none ↦ none
      | some type ↦ elim (uri_pin u) [
        | none ↦ none
        | some pin ↦ elim (uri_token u) [
          | none ↦ none
          | some name ↦ some (record {
            token_label = some name;
            key_label = some label;
            key_id = some id;
            pin = some pin;
            type = type;
            slot_id = 0;
          })
        ]
      ]
    ]
  ]
]

-- apimodule_uri_to_uri_data, at a URI that is not NULL. Where it fails, its caller only frees the
-- fields.
unfoldable pub uri_to_uri_data : (Str → Option P11Uri) → Str → Option UriData
uri_to_uri_data parse uri = elim (parse uri) [
  | none ↦ none
  | some u ↦ if get_or u.token_label 0 0 == 0 then none else uri_fields uri u
]
