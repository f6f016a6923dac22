-- ===== src/KeyAgent/SwkType/Supported.antt =====
-- Which wrapping-key types are known once `__keyagent_session_init` has run.
use skc_library.Base.{
  sym, ap, ◌∙◌, ◌++◌, map, drop, codes, split, join, replaced, join-split, ◌==◌, if◌then◌else◌, ◌≡◌,
  ◌↔◌, ◌⊎◌, inl, inr, refl, Bool, true, false, List, [], ◌∷◌, Str, arith, is_some, Bool-cases,
  beq_bytes_iff,
}
use skc_library.Base.Table.{Table, lookup, insert, lookup-insert}
use skc_library.KeyAgent.State.{gpointer_eq, Gpointer, quark, g_direct_equal}
use skc_library.KeyAgent.SwkType.{
  supported_swk_types, make_swktype, lookup_swktype, insert_swk_types, session_init,
}

-- A type has the quark of one of the list.
abbrev SameQuarkAs : Str → List Str → Type 0
SameQuarkAs type [] = ⊥
SameQuarkAs type (t ∷ ts) = (make_swktype t ≡ make_swktype type) ⊎ SameQuarkAs type ts

known : Str → Table Gpointer Str → Bool
known type table = is_some (lookup (quark (make_swktype type)) table)

insert-known :
    (type t : Str) (table : Table Gpointer Str)
    → (known type (insert (quark (make_swktype t)) t table) ≡ true)
      ↔ ((make_swktype t ≡ make_swktype type) ⊎ (known type table ≡ true))
unfolding known g_direct_equal
insert-known type t table = ground (
  arith,
  lookup-insert (quark (make_swktype t)) (quark (make_swktype type)) t table,
  beq_bytes_iff (make_swktype t) (make_swktype type),
)

inserted :
    (type : Str) (ts : List Str) (table : Table Gpointer Str)
    → (known type (insert_swk_types ts table) ≡ true)
      ↔ (SameQuarkAs type ts ⊎ (known type table ≡ true))
unfolding insert_swk_types
inserted type [] table = (λ h. inr h, λ x. elim x [ inl k ↦ absurd k | inr h ↦ h ])
inserted type (t ∷ ts) table =
    ground
      (arith, inserted type ts (insert (quark (make_swktype t)) t table), insert-known type t table)

lookup_known :
    (type : Str) (table : Table Gpointer Str)
    → is_some (lookup_swktype table type) ≡ known type table
unfolding lookup_swktype known
lookup_known type table = elim (Bool-cases (known type table)) [
  | inl h ↦ rw (lookup_swktype, h) refl
  | inr h ↦ rw (lookup_swktype, h) refl
]

none_known : (type : Str) → known type [] ≡ false
unfolding known lookup
none_known type = refl

-- A type with underscores for its dashes.
abbrev pub underscored : Str → Str
underscored [] = []
underscored (c ∷ s) = (if c == b'-' then b'_' else c) ∷ underscored s

abbrev pub IsOneOf : Str → List Str → Type 0
IsOneOf s [] = ⊥
IsOneOf s (t ∷ ts) = (s ≡ t) ⊎ IsOneOf s ts

-- The six names, with underscores.
abbrev pub swk_names : List Str
swk_names =
    codes "AES128_GCM"
    ∷ codes "AES192_GCM"
    ∷ codes "AES256_GCM"
    ∷ codes "AES128_WRAP"
    ∷ codes "AES192_WRAP"
    ∷ codes "AES256_WRAP"
    ∷ []

underscored-replaced : (s : Str) → replaced b'-' b'_' s ≡ underscored s
unfolding replaced
underscored-replaced [] = refl
underscored-replaced (c ∷ s) = ground (arith, underscored-replaced s)

quark_text : (type : Str) → join b'_' (split b'-' type) ≡ underscored type
quark_text type = join-split b'-' b'_' type ∙ underscored-replaced type

-- Two types have the same quark exactly if they differ in dashes and underscores alone.
make_swktype-underscored :
    (s t : Str) → (make_swktype s ≡ make_swktype t) ↔ (underscored t ≡ underscored s)
unfolding make_swktype
make_swktype-underscored s t = (
  λ h. sym (quark_text t) ∙ sym (ap (drop 17) h) ∙ quark_text s,
  λ h. ap tagged (quark_text s ∙ sym h ∙ sym (quark_text t)),
)
  where
    tagged : Str → Str
    tagged x = codes "KEYAGENT" ++ (b'_' ∷ codes "SWKTYPE") ++ (b'_' ∷ x)

named :
    (type : Str) (ts : List Str)
    → SameQuarkAs type ts ↔ IsOneOf (underscored type) (map underscored ts)
named type [] = (λ x. x, λ x. x)
named type (t ∷ ts) = ground (arith, make_swktype-underscored t type, named type ts)

-- After the start a wrapping-key type is known exactly if, with its dashes read as underscores, it
-- is AES128_GCM, AES192_GCM, AES256_GCM, AES128_WRAP, AES192_WRAP or AES256_WRAP.
pub lookup_swktype-supported :
    (type : Str)
    → (is_some (lookup_swktype session_init type) ≡ true) ↔ IsOneOf (underscored type) swk_names
unfolding session_init
lookup_swktype-supported type = rw (lookup_known type session_init) (
    ground (
      arith,
      inserted type supported_swk_types [],
      none_known type,
      named type supported_swk_types,
    ))
