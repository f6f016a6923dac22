-- ===== src/Base/Text.antt =====
-- Text as its bytes, and the GLib string calls that the source makes on it: `g_strsplit` with a
-- one-byte delimiter and no limit, `g_strjoin`, `g_str_has_prefix`, as GLib documents them.
use Prim.Native.Nat.{ℕ, zero, suc}
use Prim.Native.Char.{code}
use Prim.Native.String.{String}
use mathlib.Core.Path.{◌≡◌, refl}
use mathlib.Core.Logic.{◌≢◌}
use mathlib.Core.Bool.{Bool, true, false, ◌&&◌, ◌||◌}
use mathlib.Core.List.{List, [], ◌∷◌, ◌++◌, append-nil, append_assoc}
use mathlib.Core.Option.{Option, none, some}
use native.Mathlib.Omega.{arith}
use skc_library.Base.Tests.{◌==◌, if◌then◌else◌}

abbrev pub Str : Type 0
Str = List ℕ

abbrev pub codes : String → Str
codes String.[] = []
codes (String.◌∷◌ c s) = code c ∷ codes s

abbrev pub colon : ℕ
colon = b':'

-- The pieces of a text, at least one.
pub pieces : ℕ → Str → Str → List Str
pieces d acc [] = acc ∷ []
pieces d acc (c ∷ s) =
    let rest = pieces d [] s in
    let more = pieces d (acc ++ c ∷ []) s in if c == d then acc ∷ rest else more

-- `g_strsplit (s, d, -1)`: the empty text gives the empty vector.
unfoldable pub split : ℕ → Str → List Str
unfolding pieces
split d [] = []
split d (c ∷ s) = pieces d [] (c ∷ s)

-- Entry `i` of a NULL-terminated vector: `none` reads past its end, `some none` is NULL.
unfoldable pub token : List Str → ℕ → Option (Option Str)
token [] zero = some none
token [] (suc i) = none
token (t ∷ ts) zero = some (some t)
token (t ∷ ts) (suc i) = token ts i

-- `g_strjoin` and `g_strjoinv` with a one-byte separator.
unfoldable pub join : ℕ → List Str → Str
join d [] = []
join d (s ∷ []) = s
join d (s ∷ t ∷ ts) = s ++ d ∷ join d (t ∷ ts)

unfoldable pub has_prefix : Str → Str → Bool
has_prefix [] s = true
has_prefix (c ∷ p) [] = false
has_prefix (c ∷ p) (x ∷ s) = c == x && has_prefix p s

-- Whether `g_strrstr` finds the needle.
unfoldable pub contains : Str → Str → Bool
contains needle [] = has_prefix needle []
contains needle (c ∷ s) = has_prefix needle (c ∷ s) || contains needle s

-- The C string at the start of a buffer.
unfoldable pub c_str : Str → Str
c_str [] = []
c_str (c ∷ s) = let rest = c ∷ c_str s in if c == 0 then [] else rest

-- A text without the byte `d`.
abbrev pub Lacks : ℕ → Str → Type 0
Lacks d [] = Unit
Lacks d (c ∷ s) = (c ≢ d) × Lacks d s

pieces-lacks :
    (d : ℕ) (acc s rest : Str)
    → Lacks d s
    → pieces d acc (s ++ d ∷ rest) ≡ (acc ++ s) ∷ pieces d [] rest
unfolding pieces
pieces-lacks d acc [] rest h = ground (arith, append-nil acc)
pieces-lacks d acc (c ∷ s) rest h =
    ground (arith, pieces-lacks d (acc ++ c ∷ []) s rest, append_assoc acc (c ∷ []) s)

pieces_last : (d : ℕ) (acc s : Str) → Lacks d s → pieces d acc s ≡ (acc ++ s) ∷ []
unfolding pieces
pieces_last d acc [] h = rw append-nil
pieces_last d acc (c ∷ s) h =
    ground (arith, pieces_last d (acc ++ c ∷ []) s, append_assoc acc (c ∷ []) s)

-- The first piece ends at the first delimiter.
pub split-lacks :
    (d : ℕ) (s rest : Str) → Lacks d s → split d (s ++ d ∷ rest) ≡ s ∷ pieces d [] rest
unfolding split
split-lacks d [] rest h = pieces-lacks d [] [] rest h
split-lacks d (c ∷ s) rest h = pieces-lacks d [] (c ∷ s) rest h

pub pieces_two :
    (d : ℕ) (s rest : Str) → Lacks d s → pieces d [] (s ++ d ∷ rest) ≡ s ∷ pieces d [] rest
pieces_two d s rest h = pieces-lacks d [] s rest h

pub pieces_one : (d : ℕ) (s : Str) → Lacks d s → pieces d [] s ≡ s ∷ []
pieces_one d s h = pieces_last d [] s h

-- A text with one byte for another.
unfoldable pub replaced : ℕ → ℕ → Str → Str
replaced d u [] = []
replaced d u (c ∷ s) = let rest = replaced d u s in if c == d then u ∷ rest else c ∷ rest

join-pieces :
    (d u : ℕ) (t acc s : Str) → join u (t ∷ pieces d acc s) ≡ t ++ u ∷ join u (pieces d acc s)
unfolding pieces join
join-pieces d u t acc [] = refl
join-pieces d u t acc (c ∷ s) = ground (arith, join-pieces d u t (acc ++ c ∷ []) s)

joined_pieces : (d u : ℕ) (acc s : Str) → join u (pieces d acc s) ≡ acc ++ replaced d u s
unfolding pieces join replaced
joined_pieces d u acc [] = rw append-nil refl
joined_pieces d u acc (c ∷ s) = ground (
  arith,
  join-pieces d u acc [] s,
  joined_pieces d u [] s,
  joined_pieces d u (acc ++ c ∷ []) s,
  append_assoc acc (c ∷ []) (replaced d u s),
)

-- Joining the pieces with another byte puts it in the place of the delimiter.
pub join-split : (d u : ℕ) (s : Str) → join u (split d s) ≡ replaced d u s
unfolding split join replaced
join-split d u [] = refl
join-split d u (c ∷ s) = joined_pieces d u [] (c ∷ s)

pub has_prefix-rest : (p s : Str) → has_prefix p s ≡ true → (rest : Str) × (s ≡ p ++ rest)
unfolding has_prefix
has_prefix-rest [] s h = (s, refl)
has_prefix-rest (c ∷ p) [] h = absurd (ground (arith, h))
has_prefix-rest (c ∷ p) (x ∷ s) h =
    let same : c ≡ x = ground (arith, h) in
    let more = has_prefix-rest p s (ground (arith, h)) in (more.0, ground (arith, same, more.1))

split_test : split colon (codes "KMS:id:") ≡ codes "KMS" ∷ codes "id" ∷ [] ∷ []
unfolding split
split_test = refl
