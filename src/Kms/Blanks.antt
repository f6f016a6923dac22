-- ===== src/Kms/Blanks.antt =====
-- Taking the blanks off both ends of a text (npm/kms/src/intf.cpp, by `g_strstrip`).
use skc_library.Base.{ℕ, ◌≡◌, refl, ◌∙◌, ap, ◌⊎◌, true, false, [], ◌∷◌, ◌++◌, Str, arith}
use skc_library.Kms.Wire.{is_space, strip_left, strip_right, strip}

-- A blank, a tabulator, a line feed, a form feed or a carriage return.
abbrev pub IsBlank : ℕ → Type 0
IsBlank c = (c ≡ b' ') ⊎ (c ≡ 9) ⊎ (c ≡ 10) ⊎ (c ≡ 12) ⊎ (c ≡ 13)

abbrev pub AreBlank : Str → Type 0
AreBlank [] = Unit
AreBlank (c ∷ s) = IsBlank c × AreBlank s

-- A text whose first byte, and one whose last byte, is no blank.
abbrev pub BeginsInk : Str → Type 0
BeginsInk [] = ⊥
BeginsInk (c ∷ s) = IsBlank c → ⊥

abbrev pub EndsInk : Str → Type 0
EndsInk [] = ⊥
EndsInk (c ∷ []) = IsBlank c → ⊥
EndsInk (c ∷ d ∷ s) = EndsInk (d ∷ s)

blank_space : (c : ℕ) → IsBlank c → is_space c ≡ true
blank_space c h = ground (arith, h)

ink_space : (c : ℕ) → (IsBlank c → ⊥) → is_space c ≡ false
ink_space c h = ground (arith, h)

strip_left-AreBlank : (before s : Str) → AreBlank before → strip_left (before ++ s) ≡ strip_left s
unfolding strip_left
strip_left-AreBlank [] s h = refl
strip_left-AreBlank (c ∷ before) s (blank, blanks) =
    rw (blank_space c blank) (strip_left-AreBlank before s blanks)

strip_left-BeginsInk : (s after : Str) → BeginsInk s → strip_left (s ++ after) ≡ s ++ after
unfolding strip_left
strip_left-BeginsInk [] after h = absurd h
strip_left-BeginsInk (c ∷ s) after h = rw (ink_space c h) refl

strip_right-AreBlank : (s : Str) → AreBlank s → strip_right s ≡ []
unfolding strip_right
strip_right-AreBlank [] h = refl
strip_right-AreBlank (c ∷ s) (blank, blanks) =
    rw (strip_right-AreBlank s blanks, blank_space c blank) refl

strip_right-EndsInk : (s after : Str) → EndsInk s → AreBlank after → strip_right (s ++ after) ≡ s
unfolding strip_right
strip_right-EndsInk [] after h blanks = absurd h
strip_right-EndsInk (c ∷ []) after h blanks =
    rw (strip_right-AreBlank after blanks, ink_space c h) refl
strip_right-EndsInk (c ∷ d ∷ s) after h blanks =
    rw (strip_right-EndsInk (d ∷ s) after h blanks) refl

pub strip-AreBlank :
    (before s after : Str)
    → AreBlank before
    → BeginsInk s
    → EndsInk s
    → AreBlank after
    → strip (before ++ (s ++ after)) ≡ s
unfolding strip
strip-AreBlank before s after h begins ends k =
    ap strip_right (strip_left-AreBlank before (s ++ after) h ∙ strip_left-BeginsInk s after begins)
    ∙ strip_right-EndsInk s after ends k
