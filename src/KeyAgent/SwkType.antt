-- ===== src/KeyAgent/SwkType.antt =====
-- key-agent/src/session.cpp: the kinds of session wrapping key that are supported.
pub mod Supported
use skc_library.Base.{
  bytes_eq, ◌++◌, Option, none, some, List, [], ◌∷◌, Str, codes, split, join, is_some,
  if◌then◌else◌,
}
use skc_library.Base.Table.{Table, lookup, insert}
use skc_library.KeyAgent.State.{gpointer_eq, Gpointer, quark}

abbrev pub supported_swk_types : List Str
supported_swk_types =
    codes "AES128-GCM"
    ∷ codes "AES192-GCM"
    ∷ codes "AES256-GCM"
    ∷ codes "AES128-WRAP"
    ∷ codes "AES192-WRAP"
    ∷ codes "AES256-WRAP"
    ∷ []

-- `keyagent_quark_to_string` of key-agent/types.h, at two texts that are not NULL.
pub quark_to_string : Str → Str → Str
quark_to_string type name = codes "KEYAGENT" ++ (b'_' ∷ type) ++ (b'_' ∷ name)

-- __keyagent_session_make_swktype: the quark, as its text.
unfoldable pub make_swktype : Str → Str
unfolding quark_to_string
make_swktype type = quark_to_string (codes "SWKTYPE") (join b'_' (split b'-' type))

-- __keyagent_session_lookup_swktype: `none` for the quark 0.
unfoldable pub lookup_swktype : Table Gpointer Str → Str → Option Str
unfolding make_swktype
lookup_swktype table type =
    if is_some (lookup (quark (make_swktype type)) table) then some (make_swktype type) else none

insert_swk_types : List Str → Table Gpointer Str → Table Gpointer Str
unfolding make_swktype
insert_swk_types [] table = table
insert_swk_types (t ∷ ts) table = insert_swk_types ts (insert (quark (make_swktype t)) t table)

-- __keyagent_session_init
unfoldable pub session_init : Table Gpointer Str
unfolding insert_swk_types
session_init = insert_swk_types supported_swk_types []
