-- ===== src/KeyAgent/Session/Refines.antt =====
-- The creation of a session (key-agent/src/session.cpp) as an update of the map of sessions.
use skc_library.Base.{
  ℕ, ◌≡◌, refl, ap, ◌∙◌, Bool, false, Option, none, some, List, Str, inl, inr, Option-cases,
  Bool-cases, bytes_eq, beq_bytes, if◌then◌else◌,
}
use skc_library.Base.Table.{lookup}
use skc_library.Types.{GError, ℤ}
use skc_library.KeyAgent.Database.{Gda}
use skc_library.KeyAgent.State.{gpointer_eq, quark, Agent, Stm, session_at}
use skc_library.KeyAgent.Key.{session_lookup}
use skc_library.KeyAgent.SwkType.{lookup_swktype}
use skc_library.KeyAgent.Stm.{stm_get_by_name}
use skc_library.KeyAgent.Session.{
  evict_session, place_session, finish_session, create_under, session_create_with_cacheid,
  session_create,
}
use skc_library.KeyAgent.Session.Creates.{finish_session-SameSessions}
use skc_library.KeyAgent.WellFormed.{IsWellFormed}
use skc_library.Effect.{pure, gets, raise, ◌>>=◌}
use skc_library.Effect.Post.{Post, Post-bind, Post-weaken, Post_apply}
use skc_library.KeyAgent.Session.View.{
  View, is_gone, create_view, swk_behind, swk_behind-same, view, replaced,
}
use skc_library.KeyAgent.Session.Drops.{Evicted, Evicted-view, evict_session-Evicted}
use skc_library.KeyAgent.Session.Places.{Shown, place_session-Shown}

module _ {D W : Type 0} where
  module _ (gda : Gda W) where
    finish_session-view :
        (rid : Str) (cid : ℤ) (p : ℕ) (e : GError) (a : Agent D W)
        → Post
            (Unit {0})
            (λ _ _ b. (s : Str) → view b s ≡ view a s)
            (finish_session gda rid cid p e a)
    unfolding view session_lookup session_at
    finish_session-view rid cid p e a =
        Post-weaken _ _ _ _ _ (λ _. tt)
          (λ _ _ b h s.
            ap (swk_behind b.heap) (ap (lookup (quark s)) h.table)
            ∙ swk_behind-same b.heap a.heap (session_lookup a s) h.swk)
          (finish_session-SameSessions gda rid cid p e a)

    not_gone : (a : Agent D W) (sid : Str) (o : Option ℕ) → is_gone (replaced a sid o) sid ≡ false
    unfolding is_gone replaced
    not_gone a sid none = refl
    not_gone a sid (some q) = elim (Bool-cases (beq_bytes (session_at a q).session_id sid)) [
      | inl same ↦ rw (is_gone, same) refl
      | inr other ↦ rw (is_gone, other) other
    ]

    -- A session that stays, once the session before it has gone.
    found_after :
        (sid : Str) (stm : Stm D W) (a b : Agent D W)
        → Evicted (replaced a sid stm.session) a b
        → session_lookup b sid ≡ session_lookup a sid
    found_after sid stm a b h = h.table sid ∙ rw (not_gone a sid stm.session) refl

    create_under-view :
        (rid label sid : Str) (swk : List ℕ) (type : Str) (cid : ℤ) (stm : Stm D W) (e : GError)
        (a : Agent D W)
        → IsWellFormed a
        → Post
            (Unit {0})
            (λ _ _ c.
              (s : Str) → view c s ≡ create_view sid swk (replaced a sid stm.session) (view a) s)
            (create_under gda rid label sid swk type cid (session_lookup a sid) (some stm) e a)
    unfolding create_under create_view
    create_under-view rid label sid swk type cid stm e a v =
        Post-bind _ (λ _ _ b. Evicted (replaced a sid stm.session) a b) _
          (evict_session gda stm sid) _ e a (evict_session-Evicted gda stm sid e a v)
          λ _ e' b h.
            Post-bind _ (Shown sid swk b) _
              (place_session (session_lookup a sid) label sid swk type cid) _ e' b
              (place_session-Shown (session_lookup a sid) label sid swk type cid e' b h.formed
                (found_after sid stm a b h))
              λ p e'' c k.
                Post-weaken _ _ _ _ _ (λ z. z)
                  (λ _ _ d same s.
                    same s
                    ∙ k s
                    ∙ ap (λ (o : Option (List ℕ)). if beq_bytes sid s then some swk else o)
                        (Evicted-view (replaced a sid stm.session) a b s h))
                  (finish_session-view rid cid p e'' c)

    -- What creating a session makes of the map, by the wrapping-key type and the STM that are
    -- found: no change where one is missing.
    unfoldable pub created : Option Str → Option (Stm D W) → Str → List ℕ → Agent D W → View
    created none stm sid swk a = view a
    created (some t) none sid swk a = view a
    created (some t) (some stm) sid swk a =
        create_view sid swk (replaced a sid stm.session) (view a)

    session_create-view :
        (rid label sid : Str) (swk : List ℕ) (type : Str) (e : GError) (a : Agent D W)
        → IsWellFormed a
        → Post
            (Unit {0})
            (λ _ _ c.
              (s : Str)
              → view c s
                ≡ created
                    (lookup_swktype a.swk_type_hash type)
                    (stm_get_by_name a label)
                    sid
                    swk
                    a
                    s)
            (session_create gda rid label sid swk type e a)
    unfolding session_create session_create_with_cacheid gets raise pure Post created create_under
        ◌>>=◌
    session_create-view rid label sid swk type e a v =
        elim (Option-cases (lookup_swktype a.swk_type_hash type)) [
          | inl h ↦ rw (h, Post) (λ s. rw (h, created) refl)
          | inr (t, h) ↦ elim (Option-cases (stm_get_by_name a label)) [
            | inl k ↦ rw (h, k, Post) (λ s. rw (h, k, created) refl)
            | inr (stm, k) ↦
                rw (h, k, created) (create_under-view rid label sid swk type _ stm e a v)
          ]
        ]

    -- However it ends, with or without an error, creating a session in a well-formed state turns
    -- the map from session identifiers to wrapping keys into the one of the specification: where
    -- the wrapping-key type is supported and the STM is loaded, the new wrapping key stands under
    -- the identifier, the STM's former session is gone if it is another one, and every other
    -- session is as it was; where not, the map is the same.
    pub session_create-created :
        (rid label sid : Str) (swk : List ℕ) (type : Str) (x : Bool) (e e' : GError)
        (a b : Agent D W)
        → IsWellFormed a
        → session_create gda rid label sid swk type e a ≡ some (x, e', b)
        → (s : Str)
        → view b s
          ≡ created (lookup_swktype a.swk_type_hash type) (stm_get_by_name a label) sid swk a s
    session_create-created rid label sid swk type x e e' a b v returned =
        Post_apply _ _ _ (session_create-view rid label sid swk type e a v) returned
