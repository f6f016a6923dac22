-- ===== src/Pkcs11/Token/Finds.antt =====
-- Which token labels a search takes for a name.
use skc_library.Base.{
  ◌≤◌, ◌≡◌, ◌↔◌, refl, ap, true, [], ◌∷◌, ◌++◌, Str, arith, length, take, beq_bytes_iff,
}
use skc_library.Pkcs11.Label.{label_size, padded_label}
use skc_library.Pkcs11.Label.Laws.{EndsInk, utf8_to_char-padded_label}
use skc_library.Pkcs11.Token.{label_matches}

-- One text begins with another.
abbrev pub BeginsWith : Str → Str → Type 0
BeginsWith name label = (rest : Str) × (label ≡ name ++ rest)

take_begins : (name label : Str) → take (length name) label ≡ name → BeginsWith name label
take_begins [] label h = (label, refl)
take_begins (c ∷ name) [] h = absurd (ground (arith, h))
take_begins (c ∷ name) (x ∷ label) h =
    let (rest, e) = take_begins name label (ground (arith, h)) in (rest, ground (arith, h, e))

begins_take : (name rest : Str) → take (length name) (name ++ rest) ≡ name
begins_take [] rest = refl
begins_take (c ∷ name) rest = ap (λ t. c ∷ t) (begins_take name rest)

-- A token that was made with a label (of at most 32 bytes, not ending in a blank) is taken for a
-- name exactly if the label begins with the name: for its own name, and for every shorter one.
pub label_matches-padded_label :
    (name label : Str)
    → EndsInk label
    → length label ≤ label_size
    → (label_matches name (padded_label label) ≡ true) ↔ BeginsWith name label
unfolding label_matches
label_matches-padded_label name label ink short =
    rw (label_matches, utf8_to_char-padded_label label ink short)
      (
        λ h. take_begins name label ((beq_bytes_iff (take (length name) label) name).0 h),
        λ (rest, e).
            (beq_bytes_iff (take (length name) label) name).1 (rw e (begins_take name rest)),
      )
