-- ===== src/KeyAgent/Key.antt =====
-- key-agent/src/key.cpp: the table of keys.
pub mod Removal
pub mod Presence
use skc_library.Base.{
  ℕ, Bool, true, false, bytes_eq, ◌==◌, Option, none, some, List, [], ◌∷◌, ◌++◌, Str, if◌then◌else◌,
}
use skc_library.Base.Table.{Table, lookup, insert, remove}
use skc_library.Types.{
  Keytype, ℤ, is_minus_one, pos, negsuc, keyagent_error, key_create_params,
  key_create_invalid_session_id,
}
use skc_library.KeyAgent.Database.{Gda}
use skc_library.KeyAgent.State.{
  gpointer_eq, Gpointer, quark, chars, Session, Key, Attributes, Agent, Action,
}
use skc_library.Effect.{pure, fault, gets, modify, set_error, own_error, ◌>>=◌, ◌>>◌}
use skc_library.KeyAgent.Cache.{keydata, key_lookup}
use skc_library.KeyAgent.Cache.Keys.{cache_key, uncache_key}

-- Whether a key was made under the session behind a pointer.
unfoldable pub of_session : ℕ → Key → Bool
of_session p key = elim key.session [ none ↦ false | some q ↦ q == p ]

-- __build_delete_key_list, over the whole table.
unfoldable pub build_delete_key_list : ℕ → Table Gpointer Key → List Key
build_delete_key_list p [] = []
build_delete_key_list p ((_, key) ∷ t) =
    let rest = build_delete_key_list p t in if of_session p key then key ∷ rest else rest

module _ {D W : Type 0} where
  unfoldable pub session_lookup : Agent D W → Str → Option ℕ
  session_lookup a session_id = lookup (quark session_id) a.session_hash

  module _ (gda : Gda W) where
    -- `g_hash_table_remove` on the key table, whose value destructor is
    -- `__keyagent_key_hash_value_free`: it takes the key out of the database.
    unfoldable pub key_hash_remove : Gpointer → Action D W (Unit {0})
    key_hash_remove k = do
      found ← gets (λ a. lookup k a.key_hash)
      elim found [
        | none ↦ pure tt
        | some key ↦ do
          modify λ a. record a { key_hash = remove k a.key_hash }
          own_error (uncache_key gda key)
          pure tt
      ]

    -- `__delete_key` passes the address of the URL's characters, not its quark.
    unfoldable pub delete_listed : List Key → Action D W (Unit {0})
    delete_listed [] = pure tt
    delete_listed (key ∷ keys) = do key_hash_remove (chars key.url); delete_listed keys

    unfoldable pub key_remove_by_session : ℕ → Action D W (Unit {0})
    key_remove_by_session p = do
      listed ← gets (λ a. build_delete_key_list p a.key_hash)
      delete_listed listed

    unfoldable pub cache_new_key : Str → ℤ → Action D W Str
    cache_new_key url cache_id =
        if is_minus_one cache_id then (do cache_key gda url; pure url) else pure url

    -- A new key under a session, once the arguments are checked.
    unfoldable pub insert_new_key : Str → Keytype → Attributes → ℤ → ℕ → Action D W Str
    insert_new_key url type attrs cache_id p = do
      modify λ a. record a {
        key_hash =
            insert (quark url)
              (record {
                url = url;
                type = type;
                session = some p;
                attributes = attrs;
                cache_id = cache_id;
              })
              a.key_hash;
      }
      cache_new_key url cache_id

    unfoldable pub reject_key : Action D W (Option Str)
    reject_key = do set_error (keyagent_error key_create_params); pure none

    unfoldable pub create_checked : Str → Keytype → Attributes → Str → ℤ → Action D W (Option Str)
    create_checked url type attrs session_id cache_id = do
      found ← gets (λ a. session_lookup a session_id)
      elim found [
        | none ↦ do set_error (keyagent_error key_create_invalid_session_id); pure none
        | some p ↦ do q ← insert_new_key url type attrs cache_id p; pure (some q)
      ]

    unfoldable pub create_absent :
        Str → Keytype → Option Attributes → Option Str → ℤ → Action D W (Option Str)
    create_absent url type none session_id cache_id = reject_key
    create_absent url type (some attrs) none cache_id = reject_key
    create_absent url type (some attrs) (some sid) cache_id = elim (lookup keydata attrs) [
      | none ↦ reject_key
      | some _ ↦ create_checked url type attrs sid cache_id
    ]

    -- __keyagent_key_create_with_cacheid. The result is a quark, `none` for 0. A key that is
    -- there stays as it is.
    unfoldable pub key_create_with_cacheid :
        Str → Keytype → Option Attributes → Option Str → ℤ → Action D W (Option Str)
    key_create_with_cacheid url type attrs session_id cache_id = do
      old ← gets (λ a. key_lookup a url)
      elim old [
        | none ↦ create_absent url type attrs session_id cache_id
        | some _ ↦ do q ← cache_new_key url cache_id; pure (some q)
      ]

    -- __keyagent_key_create
    unfoldable pub key_create :
        Str → Keytype → Option Attributes → Option Str → Action D W (Option Str)
    key_create url type attrs session_id =
        key_create_with_cacheid url type attrs session_id (negsuc 0)
