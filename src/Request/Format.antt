-- ===== src/Request/Format.antt =====
-- What every generated request identifier looks like.
use Prim.Native.Nat.{bit_and, bit_or}
use skc_library.Base.{
  ℕ, ◌/◌, ◌%◌, ◌≤◌, ◌<◌, ◌≡◌, refl, ◌⊎◌, [], ◌∷◌, Str, codes, arith, ◌==◌, if◌then◌else◌,
}
use skc_library.Request.{hex_digit, keyagent_generate_request_id}
use skc_library.Request.Bits.{version_bits, variant_bits}

-- A lower-case hexadecimal digit.
abbrev pub IsHex : ℕ → Type 0
IsHex c = ((b'0' ≤ c) × (c ≤ b'9')) ⊎ ((b'a' ≤ c) × (c ≤ b'f'))

abbrev pub IsVariant : ℕ → Type 0
IsVariant c = (c ≡ b'8') ⊎ (c ≡ b'9') ⊎ (c ≡ b'a') ⊎ (c ≡ b'b')

-- A character as a place of the pattern wants it: `x` any digit, `y` the variant, else itself.
abbrev pub Fits : ℕ → ℕ → Type 0
Fits place c = if place == b'x' then IsHex c else if place == b'y' then IsVariant c else c ≡ place

abbrev pub Matches : Str → Str → Type 0
Matches [] [] = Unit
Matches (place ∷ places) (c ∷ s) = Fits place c × Matches places s
Matches _ _ = ⊥

-- A version 4 UUID.
abbrev pub IsUuid4 : Str → Type 0
IsUuid4 = Matches (codes "xxxxxxxx-xxxx-4xxx-yxxx-xxxxxxxxxxxx")

digit-IsHex : (n : ℕ) → n < 16 → IsHex (hex_digit n)
unfolding hex_digit
digit-IsHex n h = ground arith

high-IsHex : (x : ℕ) → IsHex (hex_digit (x % 256 / 16))
high-IsHex x = digit-IsHex (x % 256 / 16) (omega arith)

low-IsHex : (x : ℕ) → IsHex (hex_digit (x % 16))
low-IsHex x = digit-IsHex (x % 16) (omega arith)

version_digit : (x : ℕ) → hex_digit (bit_or (bit_and (x % 256) 15) 64 % 256 / 16) ≡ b'4'
unfolding hex_digit
version_digit x = ground (arith, version_bits (x % 256))

digit-IsVariant : (x : ℕ) → IsVariant (hex_digit (bit_or (bit_and (x % 256) 63) 128 / 16))
unfolding hex_digit
digit-IsVariant x = ground (arith, variant_bits (x % 256))

-- A place and the places after it.
infixr 4 ◌&◌
◌&◌ : {A B : Type 0} → A → B → A × B
x & y = (x, y)

module _ {W : Type 0} (random_int : W → ℕ × W) where
  -- Whatever the random words are, a request identifier is a version 4 UUID: 36 characters, dashes
  -- after the groups of 8, 4, 4 and 4 digits, the version digit 4, a variant digit 8, 9, a or b, and
  -- lower-case hexadecimal digits at all other places.
  pub keyagent_generate_request_id-IsUuid4 :
      (w : W) → IsUuid4 (keyagent_generate_request_id random_int w).0
  unfolding keyagent_generate_request_id
  keyagent_generate_request_id-IsUuid4 w =
      let (a, w1) = random_int w in
      let (b, w2) = random_int w1 in
      let (c, w3) = random_int w2 in
      let (d, w4) = random_int w3 in
      high-IsHex a
      & low-IsHex (a % 256)
      & high-IsHex (a / 256)
      & low-IsHex (a / 256 % 256)
      & high-IsHex (a / 65536)
      & low-IsHex (a / 65536 % 256)
      & high-IsHex (a / 16777216)
      & low-IsHex (a / 16777216 % 256)
      & refl
      & high-IsHex b
      & low-IsHex (b % 256)
      & high-IsHex (b / 256)
      & low-IsHex (b / 256 % 256)
      & refl
      & version_digit (b / 65536)
      & low-IsHex _
      & high-IsHex (b / 16777216)
      & low-IsHex (b / 16777216 % 256)
      & refl
      & digit-IsVariant c
      & low-IsHex _
      & high-IsHex (c / 256)
      & low-IsHex (c / 256 % 256)
      & refl
      & high-IsHex (c / 65536)
      & low-IsHex (c / 65536 % 256)
      & high-IsHex (c / 16777216)
      & low-IsHex (c / 16777216 % 256)
      & high-IsHex d
      & low-IsHex (d % 256)
      & high-IsHex (d / 256)
      & low-IsHex (d / 256 % 256)
      & high-IsHex (d / 65536)
      & low-IsHex (d / 65536 % 256)
      & high-IsHex (d / 16777216)
      & low-IsHex (d / 16777216 % 256)
      & tt
