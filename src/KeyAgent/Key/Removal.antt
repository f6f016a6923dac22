-- ===== src/KeyAgent/Key/Removal.antt =====
-- What `__keyagent_key_remove_by_session` does to the table of keys.
use skc_library.Base.{ℕ, ◌≡◌, refl, none, some, List, [], ◌∷◌, Str}
use skc_library.Base.Table.{Table, lookup}
use skc_library.Types.{GError}
use skc_library.KeyAgent.Database.{Gda}
use skc_library.KeyAgent.State.{gpointer_eq, Gpointer, quark, chars, g_direct_equal, Key, Agent}
use skc_library.Effect.{◌>>=◌}
use skc_library.KeyAgent.Key.{
  build_delete_key_list, key_hash_remove, delete_listed, key_remove_by_session,
}

-- Every key of the table is a quark, as `__keyagent_key_create_with_cacheid` inserts them.
abbrev pub HasQuarkKeys : Table Gpointer Key → Type 0
HasQuarkKeys [] = Unit
HasQuarkKeys ((quark _, _) ∷ t) = HasQuarkKeys t
HasQuarkKeys ((chars _, _) ∷ t) = ⊥

lookup-chars : (s : Str) (t : Table Gpointer Key) → HasQuarkKeys t → lookup (chars s) t ≡ none
unfolding lookup g_direct_equal
lookup-chars s [] h = refl
lookup-chars s ((quark _, _) ∷ t) h = lookup-chars s t h
lookup-chars s ((chars _, _) ∷ t) h = absurd h

module _ {D W : Type 0} (gda : Gda W) where
  delete_listed_nothing :
      (l : List Key) (e : GError) (a : Agent D W)
      → HasQuarkKeys a.key_hash
      → delete_listed gda l e a ≡ some (tt, e, a)
  unfolding delete_listed key_hash_remove ◌>>=◌
  delete_listed_nothing [] e a h = refl
  delete_listed_nothing (key ∷ l) e a h =
      rw (lookup-chars key.url a.key_hash h, ◌>>=◌) (delete_listed_nothing l e a h)

  -- In a table whose keys are quarks, removing the keys of a session removes none of them and
  -- leaves the state, the database included, as it was: the removal passes the address of the
  -- URL's characters where the table is keyed by the URL's quark.
  pub key_remove_by_session-keeps :
      (p : ℕ) (e : GError) (a : Agent D W)
      → HasQuarkKeys a.key_hash
      → key_remove_by_session gda p e a ≡ some (tt, e, a)
  unfolding key_remove_by_session ◌>>=◌
  key_remove_by_session-keeps p e a h =
      delete_listed_nothing (build_delete_key_list p a.key_hash) e a h
