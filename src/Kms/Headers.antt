-- ===== src/Kms/Headers.antt =====
-- Reading the session out of the response's headers.
use skc_library.Base.{
  ◌≢◌, Bool, Bool-cases, inl, inr, has_prefix-rest, ◌≡◌, refl, ◌∙◌, true, false, Option, none, some,
  List, [], ◌∷◌, ◌++◌, Str, codes, colon, split, token, has_prefix, Lacks, split-lacks, pieces,
  append-nil, pieces_two, pieces_one, arith, ap,
}
use skc_library.Kms.Blanks.{AreBlank, BeginsInk, EndsInk, strip-AreBlank}
use skc_library.Kms.Wire.{session_tokens, session_id_of, is_session_header}

-- The name of the header, in the two spellings that are looked for.
abbrev pub header_name : Bool → Str
header_name false = codes "Session-Id"
header_name true = codes "session-id"

-- What may stand behind the identifier.
abbrev pub tail_of : Option Str → Str
tail_of none = []
tail_of (some more) = colon ∷ more

-- The response header `Session-Id:LABEL:ID` or `session-id:LABEL:ID`, or with more behind a colon.
abbrev pub session_line : Bool → Str → Str → Option Str → Str
session_line lower label id more =
    header_name lower ++ colon ∷ (label ++ colon ∷ (id ++ tail_of more))

name_lacks : (lower : Bool) → Lacks colon (header_name lower)
name_lacks false = ground arith
name_lacks true = ground arith

-- No header begins with the name and a colon.
abbrev pub NoSession : List Str → Type 0
NoSession [] = Unit
NoSession (h ∷ hs) =
    ((lower : Bool) (rest : Str) → h ≢ header_name lower ++ colon ∷ rest) × NoSession hs

other_header :
    (h : Str)
    → ((lower : Bool) (rest : Str) → h ≢ header_name lower ++ colon ∷ rest)
    → is_session_header h ≡ false
unfolding is_session_header
other_header h other = elim (Bool-cases (has_prefix (codes "Session-Id:") h)) [
  | inl upper ↦
      let (rest, same) = has_prefix-rest (codes "Session-Id:") h upper in
      absurd (other false rest same)
  | inr not_upper ↦ elim (Bool-cases (has_prefix (codes "session-id:") h)) [
    | inl lower ↦
        let (rest, same) = has_prefix-rest (codes "session-id:") h lower in
        absurd (other true rest same)
    | inr not_lower ↦ rw (not_upper, not_lower) refl
  ]
]

session_tokens-NoSession :
    (hs : List Str) (found : Option (List Str)) → NoSession hs → session_tokens hs found ≡ found
unfolding session_tokens
session_tokens-NoSession [] found h = refl
session_tokens-NoSession (x ∷ hs) found (h, hs_none) =
    rw (other_header x h) (session_tokens-NoSession hs found hs_none)

is_session_line :
    (lower : Bool) (rest : Str) → is_session_header (header_name lower ++ colon ∷ rest) ≡ true
unfolding is_session_header has_prefix
is_session_line false rest = refl
is_session_line true rest = refl

third_piece :
    (id : Str) (more : Option Str)
    → Lacks colon id
    → (rest : List Str) × (pieces colon [] (id ++ tail_of more) ≡ id ∷ rest)
third_piece id none h = ([], ap (pieces colon []) (append-nil id) ∙ pieces_one colon id h)
third_piece id (some more) h = (pieces colon [] more, pieces_two colon id more h)

split-line :
    (lower : Bool) (label id : Str) (more : Option Str)
    → Lacks colon label
    → Lacks colon id
    → (rest : List Str) × (split colon (session_line lower label id more)
        ≡ header_name lower ∷ label ∷ id ∷ rest)
split-line lower label id more hl hi =
    let (rest, third) = third_piece id more hi in
    (
      rest,
      split-lacks colon (header_name lower) (label ++ colon ∷ (id ++ tail_of more))
            (name_lacks lower)
          ∙ ap (λ ts. header_name lower ∷ ts)
              (pieces_two colon label (id ++ tail_of more) hl ∙ ap (λ ts. label ∷ ts) third),
    )

last_line :
    (before after : List Str) (line : Str) (found : Option (List Str))
    → is_session_header line ≡ true
    → NoSession after
    → session_tokens (before ++ line ∷ after) found ≡ some (split colon line)
unfolding session_tokens
last_line [] after line found h rest =
    rw (session_tokens, h) (session_tokens-NoSession after _ rest)
last_line (x ∷ before) after line found h rest = last_line before after line _ h rest

-- Where the last header that begins with `Session-Id:` or `session-id:` goes on with LABEL:ID, with
-- no colon in the label or the identifier and nothing or a further colon behind it, the session's
-- identifier is ID without the blanks before and after it, whatever headers come before; ID begins
-- and ends with another byte than a blank.
pub session_id_of-line :
    (before after : List Str) (lower : Bool) (label front id back : Str) (more : Option Str)
    → Lacks colon label
    → Lacks colon (front ++ (id ++ back))
    → AreBlank front
    → BeginsInk id
    → EndsInk id
    → AreBlank back
    → NoSession after
    → (tokens : List Str) × (session_tokens
          (before ++ session_line lower label (front ++ (id ++ back)) more ∷ after)
          none
        ≡ some tokens)
      × (session_id_of tokens ≡ some (some id))
unfolding session_id_of token
session_id_of-line before after lower label front id back more hl hi blank begins ends blank' rest =
    let text = front ++ (id ++ back) in
    let (others, same) = split-line lower label text more hl hi in
    (
      header_name lower ∷ label ∷ text ∷ others,
      last_line before after (session_line lower label text more) none
            (is_session_line lower (label ++ colon ∷ (text ++ tail_of more))) rest
          ∙ ap some same,
      ap (λ s. some (some s)) (strip-AreBlank front id back blank begins ends blank'),
    )
