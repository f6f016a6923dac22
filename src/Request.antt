-- ===== src/Request.antt =====
-- key-agent/src/request.cpp: the request identifiers, version 4 UUIDs in text form.
-- `g_random_int` is a parameter: a function of the outside world `W`, whose result is cut to 32
-- bits. The four words are laid out in little-endian order, as on the machines with SGX.
mod Bits
pub mod Format
pub mod Tests
use Prim.Native.Nat.{bit_and, bit_or}
use skc_library.Base.{
  ℕ, ◌+◌, ◌-◌, ◌*◌, ◌/◌, ◌%◌, List, [], ◌∷◌, ◌++◌, Str, get_or, set, ltb, if◌then◌else◌,
}

-- A lower-case hexadecimal digit, and the conversion `%02x` of a byte.
hex_digit : ℕ → ℕ
hex_digit n = if ltb n 10 then b'0' + n else b'a' + (n - 10)

hex_byte : ℕ → Str
unfolding hex_digit
hex_byte b = hex_digit (b / 16) ∷ hex_digit (b % 16) ∷ []

uuid_to_string : List ℕ → Str
unfolding hex_byte
uuid_to_string bytes =
    let h = λ (i : ℕ). hex_byte (get_or bytes i 0) in
    (h 0 ++ h 1 ++ h 2 ++ h 3 ++ b'-' ∷ h 4)
    ++ (h 5 ++ b'-' ∷ h 6)
    ++ (h 7 ++ b'-' ∷ h 8)
    ++ (h 9 ++ b'-' ∷ h 10)
    ++ h 11
    ++ h 12
    ++ h 13
    ++ h 14
    ++ h 15

uuid_set_version : List ℕ → ℕ → List ℕ
uuid_set_version bytes version =
    let six = bit_or (bit_and (get_or bytes 6 0) 0x0f) (version * 16) % 256 in
    let eight = bit_or (bit_and (get_or bytes 8 0) 0x3f) 0x80 in set (set bytes 6 six) 8 eight

-- The bytes of a `guint32` in memory.
word_bytes : ℕ → List ℕ
word_bytes r = r % 256 ∷ (r / 256) % 256 ∷ (r / 65536) % 256 ∷ (r / 16777216) % 256 ∷ []

module _ {W : Type 0} (random_int : W → ℕ × W) where
  uuid_generate_v4 : W → List ℕ × W
  unfolding word_bytes uuid_set_version
  uuid_generate_v4 w =
      let (a, w1) = random_int w in
      let (b, w2) = random_int w1 in
      let (c, w3) = random_int w2 in
      let (d, w4) = random_int w3 in
      (uuid_set_version (word_bytes a ++ word_bytes b ++ word_bytes c ++ word_bytes d) 4, w4)

  unfoldable pub keyagent_generate_request_id : W → Str × W
  unfolding uuid_generate_v4 uuid_to_string
  keyagent_generate_request_id w = let (uuid, w') = uuid_generate_v4 w in (uuid_to_string uuid, w')
