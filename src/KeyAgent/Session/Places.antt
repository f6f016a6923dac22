-- ===== src/KeyAgent/Session/Places.antt =====
-- How the map of sessions changes when a session is added or gets another key
-- (key-agent/src/session.cpp).
use skc_library.Base.{
  ℕ, ◌<◌, ◌≡◌, refl, ap, ◌∙◌, true, false, Option, none, some, List, Str, arith, inl, inr,
  Bool-cases, length, bytes_eq, beq_bytes, beq_bytes_iff, if◌then◌else◌, get_or, set,
  get_or-append_end, get_or-set_self,
}
use skc_library.Base.Table.{lookup-insert}
use skc_library.Types.{GError, ℤ}
use skc_library.KeyAgent.State.{
  gpointer_eq, g_direct_equal, quark, Agent, Session, session_at, set_session_at, null_session,
}
use skc_library.KeyAgent.Key.{session_lookup}
use skc_library.KeyAgent.Session.{renew_swk, add_session, place_session}
use skc_library.KeyAgent.WellFormed.{IsWellFormed}
use skc_library.Effect.{pure, gets, modify, ◌>>=◌}
use skc_library.Effect.Post.{Post}
use skc_library.KeyAgent.Session.View.{swk_behind, swk_behind-append, swk_behind-set, view}

module _ {D W : Type 0} where
  -- The map after the session is placed.
  abbrev pub Shown : Str → List ℕ → Agent D W → ℕ → GError → Agent D W → Type 0
  Shown sid swk a p e b = (s : Str) → view b s ≡ (if beq_bytes sid s then some swk else view a s)

  added-Shown :
      (label sid : Str) (swk : List ℕ) (type : Str) (cid : ℤ) (a : Agent D W) (s : Str)
      → IsWellFormed a
      → view (add_session label sid swk type cid a) s
        ≡ (if beq_bytes sid s then some swk else view a s)
  unfolding add_session view g_direct_equal swk_behind
  added-Shown label sid swk type cid a s v = elim (Bool-cases (beq_bytes sid s)) [
    | inl same ↦
        rw (lookup-insert (quark sid) (quark s) (length a.heap) a.session_hash, same)
          (ap (λ (x : Session). some x.swk) (get_or-append_end a.heap _ null_session))
    | inr other ↦
        rw (lookup-insert (quark sid) (quark s) (length a.heap) a.session_hash, other)
          (swk_behind-append a.heap _ (session_lookup a s)
            λ p found. (v.sessions (quark s) p found).0)
  ]

  -- Two identifiers have two sessions.
  apart :
      (sid s : Str) (p q : ℕ) (a : Agent D W)
      → IsWellFormed a
      → session_lookup a sid ≡ some p
      → session_lookup a s ≡ some q
      → beq_bytes sid s ≡ false
      → p ≡ q
      → ⊥
  unfolding session_lookup
  apart sid s p q a v found found' other same =
      let one : quark sid ≡ quark (get_or a.heap p null_session).session_id =
        (v.sessions (quark sid) p found).1 in
      let two : quark s ≡ quark (get_or a.heap q null_session).session_id =
        (v.sessions (quark s) q found').1 in
      let equal : sid ≡ s = ground (arith, one, two, same) in
      ground (arith, other, beq_bytes_iff sid s, equal)

  -- The map at the identifier of a session, and elsewhere once its object is replaced.
  view_own :
      (sid s : Str) (p : ℕ) (a : Agent D W)
      → session_lookup a sid ≡ some p
      → beq_bytes sid s ≡ true
      → view a s ≡ some (get_or a.heap p null_session).swk
  unfolding view swk_behind
  view_own sid s p a found same =
      let equal : sid ≡ s = (beq_bytes_iff sid s).0 same in rw (← equal, found) refl

  replaced_object :
      (sid s : Str) (p : ℕ) (new : Session) (a : Agent D W)
      → IsWellFormed a
      → session_lookup a sid ≡ some p
      → view (record a { heap = set a.heap p new }) s
        ≡ (if beq_bytes sid s then some new.swk else view a s)
  unfolding view swk_behind session_lookup
  replaced_object sid s p new a v found = elim (Bool-cases (beq_bytes sid s)) [
    | inl same ↦
        let equal : sid ≡ s = (beq_bytes_iff sid s).0 same in
        let valid : p < length a.heap = (v.sessions (quark sid) p found).0 in
        rw (same, ← equal, found)
          (ap (λ (x : Session). some x.swk) (get_or-set_self a.heap p new null_session valid))
    | inr other ↦ rw other (
        swk_behind-set a.heap p new (session_lookup a s)
          λ q found'. apart sid s p q a v found found' other)
  ]

  renewed-Shown :
      (sid : Str) (swk : List ℕ) (p : ℕ) (a : Agent D W) (s : Str)
      → IsWellFormed a
      → session_lookup a sid ≡ some p
      → view (renew_swk p swk a) s ≡ (if beq_bytes sid s then some swk else view a s)
  unfolding renew_swk set_session_at session_at
  renewed-Shown sid swk p a s v found =
      elim (Bool-cases (beq_bytes (get_or a.heap p null_session).swk swk)) [
        | inl kept ↦
            rw (renew_swk, kept)
              (elim (Bool-cases (beq_bytes sid s)) [
                | inl same ↦ rw same (
                    view_own sid s p a found same
                    ∙ ap some ((beq_bytes_iff (get_or a.heap p null_session).swk swk).0 kept))
                | inr other ↦ rw other refl
              ])
        | inr changed ↦ rw (renew_swk, changed) (replaced_object sid s p _ a v found)
      ]

  pub place_session-Shown :
      (session : Option ℕ) (label sid : Str) (swk : List ℕ) (type : Str) (cid : ℤ) (e : GError)
      (a : Agent D W)
      → IsWellFormed a
      → session_lookup a sid ≡ session
      → Post (Unit {0}) (Shown sid swk a) (place_session session label sid swk type cid e a)
  unfolding place_session modify gets pure Post Shown ◌>>=◌
  place_session-Shown none label sid swk type cid e a v found =
      λ s. added-Shown label sid swk type cid a s v
  place_session-Shown (some p) label sid swk type cid e a v found =
      λ s. renewed-Shown sid swk p a s v found
