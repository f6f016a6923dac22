-- ===== src/KeyAgent/Transfer.antt =====
-- The layout of the attribute KEYDATA (keyagent_keytransfer_t in key-agent/types.h, and the reads
-- of `__keyagent_stm_load_key` in key-agent/stm/stm_init.cpp): three 32-bit words in little-endian
-- order, then the initialisation vector, then the wrapped key.
pub mod Layout
use skc_library.Base.{
  ℕ, zero, suc, ◌+◌, ◌*◌, ◌/◌, ◌%◌, ◌<◌, ◌≤◌, ◌≡◌, refl, Bool, true, false, Option, none, some,
  List, [], ◌∷◌, ◌++◌, length, take, drop, leb, ltb, if◌then◌else◌, arith, length-append,
  take-append, drop-append,
}

pub record KeyTransfer : Type 0 where
  pub iv_length : ℕ
  pub tag_size : ℕ
  pub wrap_size : ℕ

abbrev pub transfer_size : ℕ
transfer_size = 12

unfoldable pub word : List ℕ → Option (ℕ × List ℕ)
word (a ∷ b ∷ c ∷ d ∷ rest) = some (a + 256 * (b + 256 * (c + 256 * d)), rest)
word _ = none

-- The header, read through a pointer to the start of the buffer: `none` reads past its end.
unfoldable pub read_header : List ℕ → Option KeyTransfer
unfolding word
read_header bytes = elim (word bytes) [
  | none ↦ none
  | some (iv, r1) ↦ elim (word r1) [
    | none ↦ none
    | some (tag, r2) ↦ elim (word r2) [
      | none ↦ none
      | some (wrap, _) ↦ some (record { iv_length = iv; tag_size = tag; wrap_size = wrap })
    ]
  ]
]

-- `k_buffer_alloc (data + from, size)` copies `size` bytes; `none` reads past the buffer's end.
unfoldable pub slice : List ℕ → ℕ → ℕ → Option (List ℕ)
slice bytes from size =
    if leb (from + size) (length bytes) then some (take size (drop from bytes)) else none
