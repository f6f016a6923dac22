-- ===== src/Pkcs11/Label.antt =====
-- api-module/pkcs11/src/utils.c: token labels, 32 bytes padded with blanks.
pub mod Laws
use skc_library.Base.{
  ℕ, Bool, Option, none, some, List, [], ◌∷◌, ◌++◌, Str, length, take, replicate, ◌==◌,
  if◌then◌else◌,
}

abbrev pub blank : ℕ
blank = b' '

-- A byte before the part that is kept.
unfoldable pub keep_from : ℕ → Str → Str
keep_from c [] = if c == blank then [] else c ∷ []
keep_from c (x ∷ s) = c ∷ x ∷ s

-- The text without its trailing blanks: the loop `while(len && utf8buf[len-1] == ' ') len--`.
unfoldable pub strip_blanks : Str → Str
strip_blanks [] = []
strip_blanks (c ∷ s) = keep_from c (strip_blanks s)

-- apimodule_utf8_to_char: NULL if nothing is left.
unfoldable pub utf8_to_char : Str → Option Str
utf8_to_char buf = elim (strip_blanks buf) [ [] ↦ none | c ∷ s ↦ some (c ∷ s) ]

abbrev pub label_size : ℕ
label_size = 32

-- The label that `apimodule_createtoken` hands to C_InitToken: 31 blanks after the name, cut to 32
-- bytes.
unfoldable pub padded_label : Str → Str
padded_label name = take label_size (name ++ replicate 31 blank)
