-- ===== src/KeyAgent/Cache.antt =====
-- key-agent/src/cache-session.cpp, cache-key.cpp and `__keyagent_cache_generate_fake_id` of
-- cache-init.cpp: the copies of sessions and keys in the local database. The reader-writer lock
-- `cache_rwlock` guards each call as a whole, so a call is one step; logging is left out.
pub mod Keys
use skc_library.Base.{
  ℕ, ◌+◌, ◌%◌, zero, suc, Bool, true, false, not, ◌==◌, Option, none, some, List, [], ◌∷◌, ◌++◌,
  Str, get_elem?, length, codes, if◌then◌else◌,
}
use skc_library.Base.Table.{lookup, insert}
use skc_library.Types.{
  Keytype, keytype_code, Error, keyagent_error, key_create_params, ℤ, negsuc, gint_of,
}
use skc_library.KeyAgent.Database.{
  SessionRow, KeyRow, CacheTable, keys, key_attributes, key_policy_attributes, Gda,
}
use skc_library.KeyAgent.State.{
  gpointer_eq, Gpointer, quark, Session, Key, Agent, Action, call, session_at, set_session_at,
}
use skc_library.Effect.{pure, fault, gets, modify, set_error, own_error, ◌>>=◌, ◌>>◌}

abbrev pub keydata : Str
keydata = codes "KEYAGENT_ATTR_KEYDATA"

-- The name under which the attribute is stored, `#NAME` in the source's macros.
abbrev pub keydata_column : Str
keydata_column = codes "KEYDATA"

abbrev pub minus_one_id : ℤ
minus_one_id = negsuc 0

-- session_data and key_data: what is read back from a row.
pub record SessionData : Type 0 where
  pub swk : List ℕ
  pub id : ℤ
  pub label : Str
  pub session_id : Str
  pub swk_type : Str

module _ {D W : Type 0} where
  -- The counter is a 32-bit integer; its new value is the id.
  unfoldable pub generate_fake_id : Action D W ℤ
  generate_fake_id e a =
      let n = (a.fake_cache_ids + 1) % 0x1_0000_0000 in
      some (gint_of n, e, record a { fake_cache_ids = n })

  unfoldable pub session_set_cache_id : ℕ → ℤ → Action D W (Unit {0})
  session_set_cache_id p id =
      modify λ a. set_session_at p (record (session_at a p) { cache_id = id }) a

  -- The key under a URL, through the key table.
  unfoldable pub key_lookup : Agent D W → Str → Option Key
  key_lookup a url = lookup (quark url) a.key_hash

  unfoldable pub key_set_cache_id : Str → ℤ → Action D W (Unit {0})
  key_set_cache_id url id e a = elim (key_lookup a url) [
    | none ↦ none
    | some key ↦ some (
      tt,
      e,
      record a { key_hash = insert (quark url) (record key { cache_id = id }) a.key_hash },
    )
  ]

  module _ (gda : Gda W) where
    -- Row `row` of the model: no such row is a read through NULL, and a session key that is no
    -- blob gives NULL.
    unfoldable pub get_session_from_model : List SessionRow → ℕ → Action D W (Option SessionData)
    get_session_from_model model row = elim (get_elem? model row) [
      | none ↦ fault
      | some r ↦ elim r.swk [
        | none ↦ pure none
        | some swk ↦ pure (
            some (record {
              swk = swk;
              id = r.id;
              label = r.label;
              session_id = r.session_id;
              swk_type = r.swk_type;
            }))
      ]
    ]

    -- The loop of `__keyagent_cache_loadsessions` from row `i` on, with `n` rows left.
    unfoldable pub load_session_rows : List SessionRow → ℕ → ℕ → Action D W Bool
    load_session_rows model i zero = pure true
    load_session_rows model i (suc n) = do
      row ← get_session_from_model model i
      elim row [ none ↦ pure false | some _ ↦ load_session_rows model (suc i) n ]

    unfoldable pub cache_loadsessions : Action D W Bool
    cache_loadsessions = do
      model ← call gda.select_sessions
      elim model [ none ↦ pure false | some rows ↦ load_session_rows rows 0 (length rows) ]

    unfoldable pub get_session : Str → Action D W (Option SessionData)
    get_session label = do
      model ← call (gda.select_session label)
      elim model [ none ↦ pure none | some rows ↦ get_session_from_model rows 0 ]

    -- The part of `__keyagent_cache_session` after the row is in.
    unfoldable pub session_written : ℕ → Session → Action D W Bool
    session_written p s = do
      data' ← get_session s.name
      elim data' [
        | none ↦ do
          set_error (keyagent_error key_create_params)
          session_set_cache_id p minus_one_id
          pure false
        | some d ↦ do session_set_cache_id p d.id; pure true
      ]

    unfoldable pub session_stored : ℕ → Session → Action D W Bool
    session_stored p s = do
      inserted ← call (gda.insert_session s.name s.swk s.session_id s.swk_type)
      if inserted then session_written p s else (do session_set_cache_id p minus_one_id; pure false)

    -- __keyagent_cache_session
    unfoldable pub cache_session : ℕ → Action D W Bool
    cache_session p = do
      enabled ← gets (λ a. a.cache_sessions)
      s ← gets (λ a. session_at a p)
      if enabled
          then session_stored p s
          else (do id ← generate_fake_id; session_set_cache_id p id; pure true)
