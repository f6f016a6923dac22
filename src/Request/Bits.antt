-- ===== src/Request/Bits.antt =====
-- The masks of `uuid_set_version`, over all values of a byte.
use Prim.Native.Nat.{bit_and, bit_or}
use skc_library.Base.{
  ℕ, zero, suc, ◌/◌, ◌<◌, ◌≤◌, ◌≡◌, refl, Bool, true, false, ◌&&◌, arith, leb, ltb, ◌==◌,
  if◌then◌else◌,
}

-- Whether a test holds of all numbers under a bound, found by counting down.
passes : (ℕ → Bool) → ℕ → Bool
passes test zero = true
passes test (suc top) = if test top then passes test top else false

passed :
    (test : ℕ → Bool) (bound number : ℕ)
    → passes test bound ≡ true
    → number < bound
    → test number ≡ true
unfolding passes
passed test zero number ok small = absurd (omega arith)
passed test (suc top) number ok small = ground (arith, passed test top number)

abbrev version_ok : ℕ → Bool
version_ok x = let six = bit_or (bit_and x 0x0f) 64 in (six / 16 == 4) && ltb six 256

abbrev variant_ok : ℕ → Bool
variant_ok x = let eight = bit_or (bit_and x 0x3f) 0x80 in leb 8 (eight / 16) && ltb (eight / 16) 12

version_table : passes version_ok 256 ≡ true
unfolding passes
version_table = refl

variant_table : passes variant_ok 256 ≡ true
unfolding passes
variant_table = refl

-- The high half of byte 6 is the version.
pub version_bits :
    (x : ℕ) → x < 256 → let six = bit_or (bit_and x 0x0f) 64 in (six / 16 ≡ 4) × (six < 256)
version_bits x h = ground (arith, passed version_ok 256 x version_table h)

-- The two top bits of byte 8 are 10.
pub variant_bits :
    (x : ℕ) → x < 256 → let high = bit_or (bit_and x 0x3f) 0x80 / 16 in (8 ≤ high) × (high < 12)
variant_bits x h = ground (arith, passed variant_ok 256 x variant_table h)
