-- ===== src/Kms/Wire.antt =====
-- npm/kms/src/intf.cpp: what is read from and written to the wire.
use skc_library.Base.{
  ℕ, Bool, false, ◌||◌, Option, none, some, List, [], ◌∷◌, ◌++◌, Str, codes, colon, split, token,
  has_prefix, beq_bytes, ltb, ◌==◌, length, drop, if◌then◌else◌,
}
use skc_library.Types.{Keytype, rsakey, aeskey, invalidkey}
use skc_library.KeyAgent.State.{Attributes}
use skc_library.KeyAgent.Cache.{keydata}
use skc_library.Kms.Server.{Json, Base64}

abbrev pub kms_prefix_token : Str
kms_prefix_token = codes "KMS"

-- `g_ascii_isspace`
abbrev pub is_space : ℕ → Bool
is_space c = c == 32 || c == 9 || c == 10 || c == 12 || c == 13

-- `g_strstrip`
unfoldable pub strip_left : Str → Str
strip_left [] = []
strip_left (c ∷ s) = let rest = strip_left s in if is_space c then rest else c ∷ s

unfoldable pub strip_right : Str → Str
strip_right [] = []
strip_right (c ∷ s) = elim (strip_right s) [
  | [] ↦ if is_space c then [] else c ∷ []
  | d ∷ rest ↦ c ∷ d ∷ rest
]

unfoldable pub strip : Str → Str
strip s = strip_right (strip_left s)

unfoldable pub is_session_header : Str → Bool
is_session_header h = has_prefix (codes "Session-Id:") h || has_prefix (codes "session-id:") h

-- The pieces of the last header that names a session: `g_ptr_array_foreach` over
-- `get_session_id_from_header`, with the pieces so far.
unfoldable pub session_tokens : List Str → Option (List Str) → Option (List Str)
session_tokens [] found = found
session_tokens (h ∷ hs) found =
    session_tokens hs (if is_session_header h then some (split colon h) else found)

-- The identifier of a session: its third piece; NULL without one.
unfoldable pub session_id_of : List Str → Option (Option Str)
session_id_of tokens = elim (token tokens 2) [
  | none ↦ none
  | some none ↦ some none
  | some (some id) ↦ some (some (strip id))
]

-- Whether a URL's first token is the module's.
unfoldable pub is_kms_token : Option (Option Str) → Bool
is_kms_token (some (some t)) = beq_bytes t kms_prefix_token
is_kms_token _ = false

-- The second token; `g_string_append` leaves NULL out.
unfoldable pub token_text : Option (Option Str) → Str
token_text (some (some t)) = t
token_text _ = []

unfoldable pub transfer_url : Str → Str → Str
transfer_url server url =
    server ++ codes "/v1/keys/" ++ token_text (token (split colon url) 1) ++ codes "/dhsm2-transfer"

abbrev pub json_headers : List Str
json_headers = codes "Accept: application/json" ∷ codes "Content-Type: application/json" ∷ []

unfoldable pub session_header : Option Str → List Str
session_header none = []
session_header (some []) = []
session_header (some (c ∷ ids)) = (codes "Session-Id: " ++ c ∷ ids) ∷ []

unfoldable pub transfer_headers : Str → Option Str → List Str
transfer_headers stm_names ids =
    json_headers ++ (codes "Accept-Challenge: " ++ stm_names) ∷ session_header ids

abbrev pub nonce_size : ℕ
nonce_size = 32

-- The bytes of a decoded challenge that are copied: all but the dashes.
unfoldable pub without_dashes : List ℕ → List ℕ
without_dashes [] = []
without_dashes (c ∷ s) = let rest = without_dashes s in if c == b'-' then rest else c ∷ rest

-- The nonce after the copy, over what the stack held; `none` writes past its end.
unfoldable pub fill_nonce : List ℕ → List ℕ → Option (List ℕ)
fill_nonce stack decoded =
    if ltb nonce_size (length (without_dashes decoded))
    then none
    else some (without_dashes decoded ++ drop (length (without_dashes decoded)) stack)

-- The kind of a key, from its algorithm. (The source compares through a pointer into a temporary;
-- here it is the text that the temporary held.)
unfoldable pub keytype_of : Str → Keytype
keytype_of algorithm =
    if beq_bytes algorithm (codes "RSA")
    then rsakey
    else (if beq_bytes algorithm (codes "AES") then aeskey else invalidkey)

-- What a challenge request says.
pub record Challenge : Type 0 where
  pub reply_to : Str
  pub method : Str
  pub type : Str
  pub session_id : Str

pub record Granted : Type 0 where
  pub protected_swk : List ℕ
  pub swk_type : Str

pub record Transfer : Type 0 where
  pub key_id : Str
  pub keytype : Keytype
  pub attributes : Attributes

module _ {J : Type 0} (json : Json J) where
  -- A field of a field.
  unfoldable pub text_under : J → Str → Str → Option Str
  text_under j outer name = elim (json.field j outer) [ none ↦ none | some k ↦ json.text k name ]

  unfoldable pub link_text : J → Str → Option Str
  link_text j name = elim (json.field j (codes "link")) [
    | none ↦ none
    | some link ↦ text_under link (codes "challenge-replyto") name
  ]

  unfoldable pub read_challenge : J → Option Challenge
  read_challenge j = elim (link_text j (codes "href")) [
    | none ↦ none
    | some url ↦ elim (link_text j (codes "method")) [
      | none ↦ none
      | some method ↦ elim (json.text j (codes "challenge_type")) [
        | none ↦ none
        | some type ↦ elim (json.text j (codes "challenge")) [
          | none ↦ none
          | some id ↦
              some (record { reply_to = url; method = method; type = type; session_id = id })
        ]
      ]
    ]
  ]

  -- decode64_json_attr: without the member, an empty buffer.
  unfoldable pub decode64 : Base64 → J → Str → List ℕ
  decode64 base64 j name = elim (json.text j name) [ none ↦ [] | some s ↦ base64.decode s ]

  unfoldable pub read_granted : Base64 → J → Option Granted
  read_granted base64 j = elim (json.text j (codes "status")) [
    | none ↦ none
    | some _ ↦ elim (json.field j (codes "data")) [
      | none ↦ none
      | some k ↦ elim (json.text k (codes "type")) [
        | none ↦ none
        | some type ↦
            some (record { protected_swk = decode64 base64 k (codes "swk"); swk_type = type })
      ]
    ]
  ]

  -- The status and the type of the first fault.
  unfoldable pub read_denial : J → Option (Str × Str)
  read_denial j = elim (json.text j (codes "status")) [
    | none ↦ none
    | some status ↦ elim (json.field j (codes "faults")) [
      | none ↦ none
      | some faults ↦ elim (json.item faults 0) [
        | none ↦ none
        | some f ↦ elim (json.text f (codes "type")) [
          | none ↦ none
          | some type ↦ some (status, type)
        ]
      ]
    ]
  ]

  unfoldable pub read_transfer : Base64 → J → Option Transfer
  read_transfer base64 j = elim (json.field j (codes "data")) [
    | none ↦ none
    | some k ↦ elim (json.text k (codes "id")) [
      | none ↦ none
      | some id ↦ elim (json.text k (codes "algorithm")) [
        | none ↦ none
        | some algorithm ↦ some (record {
          key_id = id;
          keytype = keytype_of algorithm;
          attributes = (keydata, decode64 base64 k (codes "payload")) ∷ [];
        })
      ]
    ]
  ]
