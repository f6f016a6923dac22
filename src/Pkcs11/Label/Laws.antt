-- ===== src/Pkcs11/Label/Laws.antt =====
-- A name survives the way through a token label.
use skc_library.Base.{
  ℕ, zero, suc, ◌+◌, ◌-◌, ◌≤◌, ◌<◌, ◌≡◌, ◌≢◌, refl, ap, some, [], ◌∷◌, ◌++◌, Str, arith, length,
  take, replicate, ◌∙◌, length-append,
}
use skc_library.Pkcs11.Label.{
  blank, keep_from, strip_blanks, utf8_to_char, label_size, padded_label,
}

-- A text that is not empty and does not end in a blank.
abbrev pub EndsInk : Str → Type 0
EndsInk [] = ⊥
EndsInk (c ∷ []) = c ≢ blank
EndsInk (c ∷ x ∷ s) = EndsInk (x ∷ s)

strip-replicate : (n : ℕ) → strip_blanks (replicate n blank) ≡ []
unfolding strip_blanks keep_from
strip-replicate zero = refl
strip-replicate (suc n) = ground (arith, strip-replicate n)

strip-padding : (s : Str) (n : ℕ) → EndsInk s → strip_blanks (s ++ replicate n blank) ≡ s
unfolding strip_blanks keep_from
strip-padding [] n h = absurd h
strip-padding (c ∷ []) n h = ground (arith, strip-replicate n)
strip-padding (c ∷ x ∷ s) n h = ground (arith, strip-padding (x ∷ s) n h)

take-blanks : (k m : ℕ) → k ≤ m → take k (replicate m blank) ≡ replicate k blank
take-blanks zero m h = refl
take-blanks (suc k) zero h = absurd (omega arith)
take-blanks (suc k) (suc m) h = ap (λ t. blank ∷ t) (take-blanks k m (omega arith))

-- Cutting inside the padding.
take-padding :
    (k m : ℕ) (s : Str)
    → length s ≤ k
    → k ≤ length s + m
    → take k (s ++ replicate m blank) ≡ s ++ replicate (k - length s) blank
take-padding k m [] h j = take-blanks k m (omega arith) ∙ ap (λ n. replicate n blank) (omega arith)
take-padding zero m (c ∷ s) h j = absurd (omega arith)
take-padding (suc k) m (c ∷ s) h j =
    ap (λ t. c ∷ t)
      (take-padding k m s (omega arith) (omega arith)
        ∙ ap (λ n. s ++ replicate n blank) (omega arith))

-- A name of at most 32 bytes that does not end in a blank comes back from the padded label that a
-- new token is given.
pub utf8_to_char-padded_label :
    (name : Str)
    → EndsInk name
    → length name ≤ label_size
    → utf8_to_char (padded_label name) ≡ some name
unfolding utf8_to_char padded_label
utf8_to_char-padded_label [] ink short = absurd ink
utf8_to_char-padded_label (c ∷ s) ink short = rw (
  take-padding label_size 31 (c ∷ s) short (omega arith),
  utf8_to_char,
  strip-padding (c ∷ s) (label_size - length (c ∷ s)) ink,
)

length-take : (k : ℕ) (s : Str) → k ≤ length s → length (take k s) ≡ k
length-take zero s h = refl
length-take (suc k) [] h = absurd (omega arith)
length-take (suc k) (c ∷ s) h = ap suc (length-take k s (omega arith))

-- Every name that is not empty gives a label of exactly 32 bytes.
pub length-padded_label : (name : Str) → 0 < length name → length (padded_label name) ≡ label_size
unfolding padded_label
length-padded_label name h =
    length-take label_size (name ++ replicate 31 blank)
      (omega (arith, length-append name (replicate 31 blank)))
