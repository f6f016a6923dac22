-- ===== src/Kms/Server.antt =====
-- What the protocol module uses of other libraries, as parameters: JsonCpp, GLib's base64, and the
-- HTTPS requests (`skc_https_send` over libcurl).
use skc_library.Base.{ℕ, Option, List, Str}
use skc_library.Types.{ℤ}

-- A `Json::Value` is an element of `J`. `none` is an exception.
pub record Json (J : Type 0) : Type 0 where
  pub parse : List ℕ → J
  pub field : J → Str → Option J
  pub item : J → ℕ → Option J
  -- get_json_value
  pub text : J → Str → Option Str
  -- The post data of a challenge response, from the challenge's type, the challenge and the quote.
  pub write_session : Str → Str → Str → List ℕ

pub record Base64 : Type 0 where
  pub decode : Str → List ℕ
  pub encode : List ℕ → Str

pub record Reply : Type 0 where
  pub status : ℤ
  pub headers : List Str
  pub body : List ℕ

pub record Server (J W : Type 0) : Type 0 where
  pub server_url : Str
  pub json : Json J
  pub base64 : Base64
  pub send : Str → List Str → Option (List ℕ) → W → Reply × W
  -- What the stack holds where the nonce is put.
  pub stack : List ℕ
