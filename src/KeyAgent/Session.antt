-- ===== src/KeyAgent/Session.antt =====
-- key-agent/src/session.cpp: the sessions of the key agent.
pub mod Frames
pub mod Evicts
pub mod Creates
pub mod View
pub mod Drops
pub mod Places
pub mod Refines
use skc_library.Base.{
  ℕ, Bool, true, false, bytes_eq, beq_bytes, ◌++◌, Option, none, some, List, [], ◌∷◌, Str, length,
  colon, if◌then◌else◌,
}
use skc_library.Base.Table.{Table, lookup, insert, remove}
use skc_library.Types.{
  ℤ, negsuc, is_minus_one, keyagent_error, session_create_invalid_swk_type,
  session_create_invalid_label,
}
use skc_library.KeyAgent.Database.{Gda}
use skc_library.KeyAgent.State.{
  gpointer_eq, Gpointer, quark, Session, Agent, Action, Stm, session_at, set_session_at,
}
use skc_library.Effect.{pure, gets, modify, raise, ◌>>=◌, ◌>>◌}
use skc_library.KeyAgent.Cache.{cache_session}
use skc_library.KeyAgent.Key.{session_lookup, key_remove_by_session}
use skc_library.KeyAgent.SwkType.{lookup_swktype}
use skc_library.KeyAgent.Stm.{stm_get_by_name, stm_set_session}

-- __get_session_ids, for one session.
unfoldable pub add_session_id : Str → Session → Str
add_session_id [] s = s.name ++ colon ∷ s.session_id
add_session_id (c ∷ ids) s = (c ∷ ids) ++ b',' ∷ (s.name ++ colon ∷ s.session_id)

module _ {D W : Type 0} where
  unfoldable pub session_ids : Agent D W → Table Gpointer ℕ → Str → Str
  session_ids a [] ids = ids
  session_ids a ((_, p) ∷ t) ids = session_ids a t (add_session_id ids (session_at a p))

  -- __keyagent_session_get_ids: NULL if there is no session.
  unfoldable pub session_get_ids : Agent D W → Option Str
  session_get_ids a = elim (session_ids a a.session_hash []) [ [] ↦ none | c ∷ s ↦ some (c ∷ s) ]

  -- A session that is known takes over a wrapping key that differs.
  unfoldable pub renew_swk : ℕ → List ℕ → Agent D W → Agent D W
  renew_swk p swk a =
      if beq_bytes (session_at a p).swk swk
      then a
      else set_session_at p (record (session_at a p) { swk = swk }) a

  unfoldable pub add_session : Str → Str → List ℕ → Str → ℤ → Agent D W → Agent D W
  add_session label session_id swk swk_type cache_id a = record a {
    heap =
        a.heap
        ++ record {
          swk = swk;
          name = label;
          session_id = session_id;
          swk_type = swk_type;
          cache_id = cache_id;
        }
          ∷ [];
    session_hash = insert (quark session_id) (length a.heap) a.session_hash;
  }

  -- The pointer to the session after the branch on whether it was known.
  unfoldable pub place_session : Option ℕ → Str → Str → List ℕ → Str → ℤ → Action D W ℕ
  place_session (some p) label session_id swk swk_type cache_id = do
    modify (renew_swk p swk)
    pure p
  place_session none label session_id swk swk_type cache_id = do
    p ← gets (λ a. length a.heap)
    modify (add_session label session_id swk swk_type cache_id)
    pure p

  module _ (gda : Gda W) where
    -- `g_hash_table_remove` on the session table, with its value destructor.
    unfoldable pub session_hash_remove : Gpointer → Action D W (Unit {0})
    session_hash_remove k = do
      found ← gets (λ a. lookup k a.session_hash)
      elim found [
        | none ↦ pure tt
        | some p ↦ do
          modify λ a. record a { session_hash = remove k a.session_hash }
          key_remove_by_session gda p
      ]

    -- The STM's former session goes, unless it is the one that is asked for.
    unfoldable pub evict_session : Stm D W → Str → Action D W (Unit {0})
    evict_session stm session_id = elim stm.session [
      | none ↦ pure tt
      | some q ↦ do
        current ← gets (λ a. (session_at a q).session_id)
        if beq_bytes current session_id then pure tt else session_hash_remove (quark current)
    ]

    -- From the label `out` on.
    unfoldable pub finish_session : Str → ℤ → ℕ → Action D W Bool
    finish_session request_id cache_id p = do
      if is_minus_one cache_id then cache_session gda p else pure true
      stm_set_session request_id p

    unfoldable pub create_under :
        Str → Str → Str → List ℕ → Str → ℤ → Option ℕ → Option (Stm D W) → Action D W Bool
    create_under request_id label session_id swk swk_type cache_id session none = do
      raise (keyagent_error session_create_invalid_label)
      pure false
    create_under request_id label session_id swk swk_type cache_id session (some stm) = do
      evict_session stm session_id
      p ← place_session session label session_id swk swk_type cache_id
      finish_session request_id cache_id p

    -- keyagent_session_create
    unfoldable pub session_create_with_cacheid :
        Str → Str → Str → List ℕ → Str → ℤ → Action D W Bool
    session_create_with_cacheid request_id label session_id swk swk_type cache_id = do
      session ← gets (λ a. session_lookup a session_id)
      type ← gets (λ a. lookup_swktype a.swk_type_hash swk_type)
      stm ← gets (λ a. stm_get_by_name a label)
      elim type [
        | none ↦ do raise (keyagent_error session_create_invalid_swk_type); pure false
        | some _ ↦ create_under request_id label session_id swk swk_type cache_id session stm
      ]

    -- __keyagent_session_create
    unfoldable pub session_create : Str → Str → Str → List ℕ → Str → Action D W Bool
    session_create request_id label session_id swk swk_type =
        session_create_with_cacheid request_id label session_id swk swk_type (negsuc 0)
