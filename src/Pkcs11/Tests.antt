-- ===== src/Pkcs11/Tests.antt =====
-- Runs of the API module.
use skc_library.Types.{minus_one, rsakey}
use skc_library.Details.{LoadkeyDetails}
use skc_library.Pkcs11.Cryptoki.{cko_data}
use skc_library.Pkcs11.Dispatch.{class_of, apimodule_load_key}
use skc_library.Pkcs11.Dispatch.Unwraps.{apimodule_load_key-other_type}
use skc_library.Types.{aeskey, Error}
use skc_library.Base.{is_some}
use skc_library.Base.{replicate}
use skc_library.Pkcs11.Sgx.{sgx_load_key}
use skc_library.Pkcs11.Sgx.Wrapping.{Unwrapped, sgx_load_key-Unwrapped}
use skc_library.Base.{◌≢◌}
use skc_library.Base.{
  ℕ, ◌+◌, ◌≤◌, ◌≡◌, ◌↔◌, ◌⊎◌, inl, inr, refl, Bool, true, false, Option, none, some, List, [], ◌∷◌,
  ◌++◌, Str, codes, arith, length, bytes_eq, c_str, beq_bytes, get_or, contains, has_prefix,
}
use skc_library.Base.Table.{lookup}
use skc_library.Types.{GError}
use skc_library.Effect.{pure}
use skc_library.Effect.Post.{state_after}
use skc_library.Pkcs11.Cryptoki.{Cryptoki, ckr_ok, ckr_general_error, cko_secret_key}
use skc_library.Pkcs11.Label.{utf8_to_char, padded_label, label_size, strip_blanks, keep_from}
use skc_library.Pkcs11.Label.Laws.{EndsInk, utf8_to_char-padded_label, length-padded_label}
use skc_library.Pkcs11.State.{Token, ApiModule}
use skc_library.Pkcs11.Uri.{
  P11Uri, UriData, uri_to_uri_data, uri_fields, uri_id, uri_type, uri_pin, uri_token,
}
use skc_library.Pkcs11.Uri.Accepts.{Accepted, uri_to_uri_data-Accepted}
use skc_library.Pkcs11.Token.{label_matches, init_apimodule_token}
use skc_library.Pkcs11.Token.Finds.{BeginsWith, label_matches-padded_label}
use skc_library.Pkcs11.Token.Opens.{OpensValid, Usable, init_apimodule_token-Usable}
use skc_library.Pkcs11.OnDemand.{on_demand_keyload}
use skc_library.Pkcs11.OnDemand.Pin.{on_demand_keyload-pin}

abbrev id0 : Str
id0 = codes "04030201-0806-4402-8c09-0603100c0804"

abbrev uri0 : Str
uri0 = codes "pkcs11:token=KMS;object=k;type=secret-key"

abbrev p11uri0 : P11Uri
p11uri0 = record {
  token_label = padded_label (codes "KMS");
  label = some (codes "k");
  id = some id0;
  class = some cko_secret_key;
  pin_value = some (codes "1234");
}

abbrev parse0 : Str → Option P11Uri
parse0 uri = some p11uri0

abbrev data0 : UriData
data0 = record {
  token_label = some (codes "KMS");
  key_label = some (codes "k");
  key_id = some id0;
  pin = some (codes "1234");
  type = cko_secret_key;
  slot_id = 0;
}

-- A library with one slot, whose token is KMS, and whose calls succeed.
abbrev cryptoki0 : Cryptoki ℕ
cryptoki0 = record {
  slot_count = λ w. ((ckr_ok, 1), w);
  slot_list = λ n w. ((ckr_ok, 0 ∷ []), w);
  token_label = λ slot w. ((ckr_ok, padded_label (codes "KMS")), w);
  init_token = λ slot pin label w. (ckr_ok, w);
  open_session = λ slot w. ((ckr_ok, 7), w + 1);
  close_session = λ session w. (ckr_ok, w);
  login = λ session user pin w. (ckr_ok, w);
  logout = λ session w. (ckr_ok, w);
  init_pin = λ session pin w. (ckr_ok, w);
  finalize = λ w. (ckr_ok, w);
  initialize = λ w. (ckr_ok, w);
  find_objects_init = λ session label id w. (ckr_ok, w);
  find_objects = λ session n w. ((ckr_ok, []), w);
  find_objects_final = λ session w. (ckr_ok, w);
  get_class = λ session object w. (ckr_ok, w);
  unwrap_key = λ session mechanism key bytes template w. ((ckr_ok, 9), w);
  generate_key_pair = λ session mechanism public private w. ((ckr_ok, 3, 4), w);
  wrapped_size = λ session mechanism key w. ((ckr_ok, 8), w);
  wrap_key = λ session mechanism key n w. ((ckr_ok, []), w);
}

abbrev token0 : Token
token0 = record {
  token_label = codes "KMS";
  pin = codes "9999";
  challenge = none;
  session = 7;
  publickey_challenge_handle = 0;
  privatekey_challenge_handle = 0;
  wrappingkey_handle = 0;
}

abbrev module0 : ApiModule ℕ
module0 = record {
  apimodule_token_hash = (codes "KMS", token0) ∷ [];
  frames = data0 ∷ [];
  world = 0;
}

inky : EndsInk (codes "KMS")
inky = ground arith

utf8_to_char-padded_label_example : utf8_to_char (padded_label (codes "KMS")) ≡ some (codes "KMS")
utf8_to_char-padded_label_example = utf8_to_char-padded_label (codes "KMS") inky (omega arith)

length-padded_label_example : length (padded_label (codes "KMS")) ≡ label_size
length-padded_label_example = length-padded_label (codes "KMS") (omega arith)

label_matches-padded_label_example :
    (label_matches (codes "KM") (padded_label (codes "KMS")) ≡ true)
    ↔ BeginsWith (codes "KM") (codes "KMS")
label_matches-padded_label_example =
    label_matches-padded_label (codes "KM") (codes "KMS") inky (omega arith)

-- A token of a longer name is taken for the name.
longer : label_matches (codes "KMS") (padded_label (codes "KMS2")) ≡ true
unfolding label_matches utf8_to_char padded_label strip_blanks keep_from beq_bytes
longer = refl

valid : OpensValid cryptoki0
valid slot w ok = ground arith

abbrev opening : Option (Option Token × GError × ApiModule ℕ)
opening = init_apimodule_token cryptoki0 0 true none module0

abbrev opened_token : Token
opened_token = record token0 { pin = codes "1234" }

opened : opening ≡ some (some opened_token, none, state_after module0 opening)
unfolding skc_library.Base.beq_bytes skc_library.Base.c_str skc_library.Effect.◌>>=◌
    skc_library.Pkcs11.Label.keep_from skc_library.Pkcs11.Label.strip_blanks
    skc_library.Pkcs11.Label.utf8_to_char skc_library.Pkcs11.Label.padded_label
    skc_library.Pkcs11.State.need skc_library.Pkcs11.State.ck skc_library.Pkcs11.State.uri_at
    skc_library.Pkcs11.State.put_uri skc_library.Pkcs11.Token.label_matches
    skc_library.Pkcs11.Token.login_rv skc_library.Pkcs11.Token.scan_slots
    skc_library.Pkcs11.Token.note_slot skc_library.Pkcs11.Token.find_in_slots
    skc_library.Pkcs11.Token.list_slots skc_library.Pkcs11.Token.findtoken
    skc_library.Pkcs11.Token.user_login skc_library.Pkcs11.Token.open_token
    skc_library.Pkcs11.Token.find_and_open skc_library.Pkcs11.Token.token_session
    skc_library.Pkcs11.Token.keep_token skc_library.Pkcs11.Token.init_apimodule_token
opened = refl

init_apimodule_token-Usable_example :
    (lookup (codes "KMS") (state_after module0 opening).apimodule_token_hash ≡ some opened_token)
    × Usable cryptoki0 7 none
init_apimodule_token-Usable_example =
    init_apimodule_token-Usable cryptoki0 valid 0 true opened_token none none module0
      (state_after module0 opening) opened

uri_to_uri_data-Accepted_example :
    (uri_to_uri_data parse0 uri0 ≡ some data0) ↔ Accepted parse0 uri0 data0
uri_to_uri_data-Accepted_example = uri_to_uri_data-Accepted parse0 uri0 data0

described0 : uri_to_uri_data parse0 uri0 ≡ some data0
unfolding uri_to_uri_data uri_fields uri_id uri_type uri_pin uri_token contains has_prefix c_str
    beq_bytes utf8_to_char padded_label strip_blanks keep_from
described0 = refl

known0 : lookup (c_str (codes "KMS")) module0.apimodule_token_hash ≡ some token0
unfolding lookup c_str beq_bytes
known0 = refl

other_pin : beq_bytes (c_str token0.pin) (c_str (codes "1234")) ≡ false
unfolding c_str beq_bytes
other_pin = refl

on_demand_keyload-pin_example :
    on_demand_keyload parse0 cryptoki0 (λ url p. pure true) uri0 none module0
    ≡ some (ckr_general_error, none, module0)
on_demand_keyload-pin_example =
    on_demand_keyload-pin parse0 cryptoki0 (λ url p. pure true) uri0 data0 (codes "KMS")
      (codes "1234") token0 none module0 described0 refl refl known0 other_pin

-- An RSA key for a URI that says secret key.
abbrev details0 : LoadkeyDetails ℕ
details0 = record {
  label = codes "SGX";
  url = uri0;
  type = rsakey;
  key = 1 ∷ 2 ∷ [];
  iv = none;
  tag_size = 16;
  module_data = some 0;
}

typed0 : data0.type ≢ cko_data
typed0 h = ground (arith, h)

differs0 : data0.type ≢ class_of rsakey
unfolding class_of
differs0 h = ground (arith, h)

apimodule_load_key-other_type_example :
    apimodule_load_key cryptoki0 details0 none module0 ≡ some (false, some minus_one, module0)
apimodule_load_key-other_type_example =
    apimodule_load_key-other_type cryptoki0 details0 0 data0 none module0 (codes "KMS") refl refl
      refl typed0 differs0

-- An AES key with a vector of twelve bytes.
abbrev aes_details : LoadkeyDetails ℕ
aes_details = record details0 { type = aeskey; iv = some (replicate 12 1) }

unwrapping : sgx_load_key cryptoki0 aes_details none module0 ≡ some (true, none, module0)
unfolding skc_library.Base.beq_bytes skc_library.Base.c_str skc_library.Base.Table.lookup
    skc_library.Effect.◌>>=◌ skc_library.Pkcs11.State.need skc_library.Pkcs11.State.ck
    skc_library.Pkcs11.State.uri_at skc_library.Pkcs11.State.lookup_apimodule_token
    skc_library.Pkcs11.Sgx.with_token skc_library.Pkcs11.Sgx.unwrap_with
    skc_library.Pkcs11.Sgx.sgx_unwrap_symmetric_key skc_library.Pkcs11.Sgx.unwrap_for
    skc_library.Pkcs11.Sgx.sgx_load_key
unwrapping = refl

sgx_load_key-Unwrapped_example :
    (true ≡ true → Unwrapped cryptoki0 aes_details none module0 none module0)
    × (true ≡ false → is_some {A = Error} none ≡ true)
sgx_load_key-Unwrapped_example =
    sgx_load_key-Unwrapped cryptoki0 aes_details none module0 true none module0 unwrapping
