-- ===== src/Types.antt =====
-- key-agent/types.h and include/k_errors.h: the enumerations of key kinds and of error codes, and
-- the `GError **` out-parameter as a value that is threaded through.
-- An error is its code; the domain and the message of a `GError` are not modelled.
use skc_library.Base.{ℕ, ◌-◌, Bool, false, Option, none, some, ltb, if◌then◌else◌, ◌==◌}

pub data Keytype : Type 0 where
  rsakey aeskey invalidkey : Keytype

-- The value of the enumerator.
unfoldable pub keytype_code : Keytype → ℕ
keytype_code rsakey = 1
keytype_code aeskey = 2
keytype_code invalidkey = 3

pub data KeyAgentErrors : Type 0 where
  npmload keyinit stmload key_create_params npm_url_unsupported : KeyAgentErrors
  key_create_invalid_session_id session_create_invalid_label : KeyAgentErrors
  session_create_invalid_swk_type invalid_keyformat invalid_conf_value : KeyAgentErrors
  out_of_memory invalid_cert_info apimodule_invalid_conf_value : KeyAgentErrors
  apimodule_invalid_input apimodule_api_return_error : KeyAgentErrors

pub data StmErrors : Type 0 where
  quote api_module_loadkey invalid_challenge_data invalid_loadkey_data : StmErrors
  invalid_session_data : StmErrors

pub data NpmErrors : Type 0 where
  init register keyserver_error load_key json_parse invalid_status : NpmErrors
  invalid_npm_session_data : NpmErrors

-- `minus_one` is the code -1 of the API module; `foreign` is an error of a library.
pub data Error : Type 0 where
  keyagent_error : KeyAgentErrors → Error
  stm_error : StmErrors → Error
  npm_error : NpmErrors → Error
  minus_one : Error
  foreign : ℕ → Error

-- What a `GError **` points to.
abbrev pub GError : Type 0
GError = Option Error

-- `g_set_error` and `g_propagate_error` keep an error that is already there (GLib warns).
abbrev pub g_set_error : GError → Error → GError
g_set_error none new = some new
g_set_error (some old) new = some old

abbrev pub g_propagate_error : GError → GError → GError
g_propagate_error dest none = dest
g_propagate_error none (some e) = some e
g_propagate_error (some old) (some e) = some old

-- `k_set_error` clears the old error first.
abbrev pub k_set_error : GError → Error → GError
k_set_error old new = some new

-- A `gint`: `negsuc n` is -(n + 1).
pub data ℤ : Type 0 where
  pos : ℕ → ℤ
  negsuc : ℕ → ℤ

-- The `gint` with a given 32-bit pattern.
unfoldable pub gint_of : ℕ → ℤ
gint_of n = if ltb n 0x8000_0000 then pos n else negsuc (0xffff_ffff - n)

abbrev pub is_minus_one : ℤ → Bool
is_minus_one (pos n) = false
is_minus_one (negsuc n) = n == 0

-- A call of code outside the library, on the outside world `W`: it returns a value and may set the
-- error.
abbrev pub Call : Type 0 → Type 0 → Type 0
Call W A = GError → W → A × GError × W
