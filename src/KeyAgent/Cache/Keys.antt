-- ===== src/KeyAgent/Cache/Keys.antt =====
-- key-agent/src/cache-key.cpp: keys and their attributes in the local database.
pub mod Restart
use skc_library.Base.{
  bytes_eq, ℕ, suc, zero, Bool, true, false, ◌==◌, Option, none, some, List, [], ◌∷◌, ◌++◌, Str,
  length, get_elem?, if◌then◌else◌,
}
use skc_library.Base.Table.{lookup}
use skc_library.Types.{keytype_code, rsakey, ℤ}
use skc_library.KeyAgent.Database.{
  KeyRow, CacheTable, keys, key_attributes, key_policy_attributes, Gda,
}
use skc_library.KeyAgent.State.{Key, Action, call, session_at}
use skc_library.Effect.{pure, fault, gets, modify, own_error, ◌>>=◌, ◌>>◌}
use skc_library.KeyAgent.Cache.{
  keydata, keydata_column, minus_one_id, generate_fake_id, key_lookup, key_set_cache_id,
}

module _ {D W : Type 0} (gda : Gda W) where
  unfoldable pub get_key_from_model : List KeyRow → ℕ → Action D W KeyRow
  get_key_from_model model row = elim (get_elem? model row) [ none ↦ fault | some r ↦ pure r ]

  unfoldable pub cache_loadkey_attr : ℤ → Str → Action D W (Option (List ℕ))
  cache_loadkey_attr key_id attr_name = do
    model ← call (gda.select_key_attribute key_id attr_name)
    elim model [
      | none ↦ pure none
      | some rows ↦ elim rows [ [] ↦ pure none | value ∷ _ ↦ pure (some value) ]
    ]

  -- Whether the attributes of an RSA key are all there.
  unfoldable pub create_rsa_key : KeyRow → Action D W Bool
  create_rsa_key row = do
    attr ← cache_loadkey_attr row.cache_id keydata_column
    elim attr [ none ↦ pure false | some _ ↦ pure true ]

  unfoldable pub delete_key : ℤ → CacheTable → Action D W (Unit {0})
  delete_key id table = modify λ a. record a { world = gda.delete_key_rows table id a.world }

  unfoldable pub delete_key_and_attrs : ℤ → Action D W (Unit {0})
  delete_key_and_attrs id = do
    delete_key id key_attributes
    delete_key id keys
    delete_key id key_policy_attributes

  unfoldable pub mark_for_deletion : ℤ → Action D W (Unit {0})
  mark_for_deletion id =
      modify λ a. record a { global_delete_list = a.global_delete_list ++ id ∷ [] }

  -- The switch on the kind of key: only an RSA key assigns the result, any other leaves the value
  -- `ret` that the variable had.
  unfoldable pub check_key_row : KeyRow → Bool → Action D W Bool
  check_key_row row ret =
      if row.key_type == keytype_code rsakey
      then (do checked ← own_error (create_rsa_key row); pure checked.0)
      else pure ret

  -- The loop of `__keyagent_cache_loadkeys` over the rows from `i` on, with `n` left. `ret` is
  -- the variable of the enclosing function, which lives on from row to row.
  unfoldable pub load_key_rows : List KeyRow → ℕ → ℕ → Bool → Action D W (Unit {0})
  load_key_rows model i zero ret = pure tt
  load_key_rows model i (suc n) ret = do
    row ← get_key_from_model model i
    ret' ← check_key_row row ret
    if ret' then pure tt else mark_for_deletion row.cache_id
    load_key_rows model (suc i) n ret'

  unfoldable pub delete_all : List ℤ → Action D W (Unit {0})
  delete_all [] = pure tt
  delete_all (id ∷ ids) = do delete_key_and_attrs id; delete_all ids

  unfoldable pub cache_loadkeys : Action D W Bool
  cache_loadkeys = do
    model ← call gda.select_keys
    elim model [
      | none ↦ pure false
      | some rows ↦ do
        modify λ a. record a { global_model = true }
        load_key_rows rows 0 (length rows) false
        modify λ a. record a { global_model = false }
        ids ← gets (λ a. a.global_delete_list)
        delete_all ids
        modify λ a. record a { global_delete_list = [] }
        pure true
    ]

  unfoldable pub get_key : Str → Action D W (Option KeyRow)
  get_key url = do
    model ← call (gda.select_key url)
    elim model [
      | none ↦ pure none
      | some rows ↦ do row ← get_key_from_model rows 0; pure (some row)
    ]

  unfoldable pub cache_key_attr : Str → List ℕ → ℤ → Action D W Bool
  cache_key_attr attr_name value key_id = call (gda.insert_key_attribute key_id attr_name value)

  -- A key without the attribute is a read through NULL.
  unfoldable pub cache_rsa_key_attrs : Key → ℤ → Action D W Bool
  cache_rsa_key_attrs key key_id = elim (lookup keydata key.attributes) [
    | none ↦ fault
    | some value ↦ cache_key_attr keydata_column value key_id
  ]

  unfoldable pub key_written : Key → Action D W (Bool × ℤ)
  key_written key = do
    found ← get_key key.url
    elim found [
      | none ↦ pure (false, minus_one_id)
      | some row ↦ do
        ret ←
            if row.key_type == keytype_code rsakey
            then cache_rsa_key_attrs key row.cache_id
            else pure true
        if ret then pure tt else delete_key_and_attrs row.cache_id
        pure (ret, row.cache_id)
    ]

  -- The two zero bytes are the unused column `sealed_data`.
  unfoldable pub key_stored : Key → Action D W (Bool × ℤ)
  key_stored key = elim key.session [
    | none ↦ fault
    | some p ↦ do
      s ← gets (λ a. session_at a p)
      inserted ← call (gda.insert_key key.url (0 ∷ 0 ∷ []) s.session_id (keytype_code key.type))
      if inserted then key_written key else pure (false, minus_one_id)
  ]

  unfoldable pub fake_key_id : Action D W (Bool × ℤ)
  fake_key_id = do id ← generate_fake_id; pure (true, id)

  unfoldable pub key_outcome : Bool → Option Key → Action D W (Bool × ℤ)
  key_outcome enabled none = fault
  key_outcome enabled (some key) = if enabled then key_stored key else fake_key_id

  -- __keyagent_cache_key, for the key that the key table holds under `url`.
  unfoldable pub cache_key : Str → Action D W Bool
  cache_key url = do
    enabled ← gets (λ a. a.cache_keys)
    found ← gets (λ a. key_lookup a url)
    outcome ← key_outcome enabled found
    key_set_cache_id url outcome.1
    pure outcome.0

  unfoldable pub uncache_key : Key → Action D W Bool
  uncache_key key = do
    loading ← gets (λ a. a.global_model)
    if loading then mark_for_deletion key.cache_id else delete_key_and_attrs key.cache_id
    pure true
