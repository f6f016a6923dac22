-- ===== src/KeyAgent/Transfer/Layout.antt =====
-- A buffer in the layout of KEYDATA is taken apart into what it was made of.
use skc_library.Base.{
  ℕ, suc, ◌+◌, ◌*◌, ◌/◌, ◌%◌, ◌<◌, ◌≤◌, ◌≡◌, refl, sym, ap, ◌∙◌, Option, none, some, List, [], ◌∷◌,
  ◌++◌, length, take, leb, if◌then◌else◌, arith, length-append, take-append, drop-append,
  append_assoc, append-nil,
}
use skc_library.KeyAgent.Transfer.{KeyTransfer, transfer_size, word, read_header, slice}
use skc_library.KeyAgent.Stm.{read_iv, read_parts}

-- A 32-bit word in little-endian order.
abbrev pub word_bytes : ℕ → List ℕ
word_bytes n = n % 256 ∷ (n / 256) % 256 ∷ (n / 65536) % 256 ∷ (n / 16777216) % 256 ∷ []

unfoldable pub header : ℕ → ℕ → ℕ → List ℕ
header a b c = word_bytes a ++ (word_bytes b ++ word_bytes c)

-- The header, the initialisation vector and the wrapped key in one buffer.
abbrev pub pack : List ℕ → ℕ → List ℕ → List ℕ
pack iv tag_size key = header (length iv) tag_size (length key) ++ (iv ++ key)

length-header : (a b c : ℕ) → transfer_size ≡ length (header a b c)
unfolding header
length-header a b c = refl

word_value :
    (n : ℕ)
    → n < 0x1_0000_0000
    → n % 256 + 256 * ((n / 256) % 256 + 256 * ((n / 65536) % 256 + 256 * ((n / 16777216) % 256)))
      ≡ n
word_value n h = omega arith

same_header :
    {a b c a' b' c' : ℕ}
    → a ≡ a'
    → b ≡ b'
    → c ≡ c'
    → Path
        (Option KeyTransfer)
        (some (record { iv_length = a; tag_size = b; wrap_size = c }))
        (some (record { iv_length = a'; tag_size = b'; wrap_size = c' }))
same_header h k l = rw (h, k, l)

pub read_header-pack :
    (iv : List ℕ) (tag_size : ℕ) (key : List ℕ)
    → length iv < 0x1_0000_0000
    → tag_size < 0x1_0000_0000
    → length key < 0x1_0000_0000
    → read_header (pack iv tag_size key)
      ≡ some (record { iv_length = length iv; tag_size = tag_size; wrap_size = length key })
unfolding read_header word header
read_header-pack iv tag_size key hi ht hk =
    same_header (word_value (length iv) hi) (word_value tag_size ht) (word_value (length key) hk)

fits : (m n : ℕ) (x : List ℕ) → m ≤ n → (if leb m n then some x else none) ≡ some x
fits m n x h = ground arith

-- The part of a buffer behind another part.
slice-middle :
    (head part tail : List ℕ) (from size : ℕ)
    → from ≡ length head
    → size ≡ length part
    → slice (head ++ (part ++ tail)) from size ≡ some part
unfolding slice
slice-middle head part tail from size hf hs =
    rw (hf, hs)
      (fits (length head + length part) (length (head ++ (part ++ tail))) _
          (omega (arith, length-append head (part ++ tail), length-append part tail))
        ∙ ap some
            (ap (take (length part)) (drop-append head (part ++ tail)) ∙ take-append part tail))

read_iv-pack :
    (iv : List ℕ) (tag_size : ℕ) (key : List ℕ) (t : KeyTransfer)
    → 0 < length iv
    → t.iv_length ≡ length iv
    → read_iv (pack iv tag_size key) t ≡ some (some iv)
unfolding read_iv
read_iv-pack [] tag_size key t h e = absurd (omega arith)
read_iv-pack (c ∷ iv) tag_size key t h e =
    rw
      (
        e,
        read_iv,
        slice-middle (header (suc (length iv)) tag_size (length key)) (c ∷ iv) key transfer_size
            (suc (length iv)) (length-header (suc (length iv)) tag_size (length key)) refl,
      )
      refl

key-pack :
    (iv : List ℕ) (tag_size : ℕ) (key : List ℕ) (from size : ℕ)
    → from ≡ transfer_size + length iv
    → size ≡ length key
    → slice (pack iv tag_size key) from size ≡ some key
key-pack iv tag_size key from size hf hs =
    ap (λ b. slice b from size)
      (sym (append_assoc h iv key) ∙ ap (λ k. (h ++ iv) ++ k) (sym (append-nil key)))
    ∙ slice-middle (h ++ iv) key [] from size
        (omega (arith, length-append h iv, length-header (length iv) tag_size (length key))) hs
  where
    h : List ℕ
    h = header (length iv) tag_size (length key)

-- What is packed is what is read.
pub read_parts-pack :
    (iv : List ℕ) (tag_size : ℕ) (key : List ℕ) (t : KeyTransfer)
    → 0 < length iv
    → t.iv_length ≡ length iv
    → t.tag_size ≡ tag_size
    → t.wrap_size ≡ length key
    → read_parts (pack iv tag_size key) t
      ≡ some (record { iv = some iv; wrapped_key = key; tag_size = tag_size })
unfolding read_parts
read_parts-pack iv tag_size key t h e et ew =
    rw
      (
        read_parts,
        read_iv-pack iv tag_size key t h e,
        key-pack iv tag_size key (transfer_size + t.iv_length) t.wrap_size (omega arith) ew,
        et,
      )
      refl
