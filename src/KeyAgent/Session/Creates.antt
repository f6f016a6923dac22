-- ===== src/KeyAgent/Session/Creates.antt =====
-- What creating a session does to the table of sessions.
use skc_library.Base.{
  ℕ, ◌<◌, ◌≡◌, refl, sym, ◌∙◌, Option, none, some, true, false, List, Str, arith, length,
  if◌then◌else◌, beq_bytes_iff, bytes_eq, get_or-set_self, get_or-append_end, if◌then◌else◌,
  Bool-cases, inl, inr, ≟-refl,
}
use skc_library.Base.Table.{lookup-insert}
use skc_library.Types.{GError, ℤ, is_minus_one}
use skc_library.KeyAgent.Database.{Gda}
use skc_library.KeyAgent.State.{
  gpointer_eq, quark, Agent, Stm, session_at, set_session_at, null_session,
}
use skc_library.Effect.{pure, ◌>>=◌}
use skc_library.Effect.Post.{Post, Post-weaken, Post-bind, Post-if}
use skc_library.KeyAgent.Key.{session_lookup}
use skc_library.KeyAgent.Cache.{cache_session}
use skc_library.KeyAgent.SwkType.{lookup_swktype}
use skc_library.KeyAgent.Stm.{stm_get_by_name}
use skc_library.KeyAgent.Session.{
  session_create_with_cacheid, create_under, place_session, finish_session, renew_swk, add_session,
}
use skc_library.KeyAgent.Session.Evicts.{SameFor, evict_session-SameFor}
use skc_library.KeyAgent.Session.Frames.{
  SameSessions, SameSessions-frame, cache_session-SameSessions, fake_session_id-SameSessions,
  stm_set_session-SameSessions,
}

-- Nothing is claimed of a fault but that the session cache is on.
module _ {D W : Type 0} (gda : Gda W) where
  cache_session_disabled :
      (p : ℕ) (e : GError) (a : Agent D W)
      → a.cache_sessions ≡ false
      → Post ⊥ (λ _ _ b. SameSessions a b) (cache_session gda p e a)
  unfolding cache_session ◌>>=◌
  cache_session_disabled p e a off =
      Post-if _ _ a.cache_sessions _ _ e a (λ on. cc) λ _. (fake_session_id-SameSessions p).at e a

  cache_session-Post :
      (p : ℕ) (e : GError) (a : Agent D W)
      → Post (a.cache_sessions ≡ true) (λ _ _ b. SameSessions a b) (cache_session gda p e a)
  cache_session-Post p e a = elim (Bool-cases a.cache_sessions) [
    | inl on ↦
        Post-weaken _ _ _ _ _ (λ _. on) (λ x e' b h. h) ((cache_session-SameSessions gda p).at e a)
    | inr off ↦
        Post-weaken _ _ _ _ _ (λ h. absurd h) (λ x e' b h. h) (cache_session_disabled p e a off)
  ]

  cache_if_fresh :
      (cid : ℤ) (p : ℕ) (e : GError) (a : Agent D W)
      → Post
          (a.cache_sessions ≡ true)
          (λ _ _ b. SameSessions a b)
          ((if is_minus_one cid then cache_session gda p else pure true) e a)
  unfolding pure Post
  cache_if_fresh cid p e a =
      Post-if _ _ (is_minus_one cid) _ _ e a (λ _. cache_session-Post p e a)
        λ _. SameSessions-frame.same a

  pub finish_session-SameSessions :
      (rid : Str) (cid : ℤ) (p : ℕ) (e : GError) (a : Agent D W)
      → Post
          (a.cache_sessions ≡ true)
          (λ _ _ b. SameSessions a b)
          (finish_session gda rid cid p e a)
  unfolding finish_session
  finish_session-SameSessions rid cid p e a =
      Post-bind _ _ _ _ _ e a (cache_if_fresh cid p e a) λ x e' b h.
        Post-weaken _ _ _ _ _ (λ k. absurd k) (λ y e'' c k. SameSessions-frame.chain a b c h k)
          ((stm_set_session-SameSessions rid p).at e' b)

  -- The session under `sid` is there and has this wrapping key.
  abbrev pub Stored : Str → List ℕ → Agent D W → Type 0
  Stored sid swk b = (p : ℕ) × (session_lookup b sid ≡ some p) × ((session_at b p).swk ≡ swk)

  Placed : Agent D W → Str → List ℕ → ℕ → GError → Agent D W → Type 0
  Placed a sid swk p e b =
      (session_lookup b sid ≡ some p)
      × ((session_at b p).swk ≡ swk)
      × (b.cache_sessions ≡ a.cache_sessions)

  place_session-Placed :
      (session : Option ℕ) (label sid type : Str) (swk : List ℕ) (cid : ℤ) (e : GError)
      (a : Agent D W)
      → session_lookup a sid ≡ session
      → ((p : ℕ) → session ≡ some p → p < length a.heap)
      → Post ⊥ (Placed a sid swk) (place_session session label sid swk type cid e a)
  unfolding place_session Placed ◌>>=◌ renew_swk add_session session_at set_session_at
      session_lookup Post
  place_session-Placed none label sid type swk cid e a found valid = (
    lookup-insert (quark sid) (quark sid) (length a.heap) a.session_hash ∙ rw ≟-refl,
    rw get_or-append_end,
    refl,
  )
  place_session-Placed (some p) label sid type swk cid e a found valid = ground (
    arith,
    found,
    valid p refl,
    beq_bytes_iff (session_at a p).swk swk,
    get_or-set_self a.heap p (record (session_at a p) { swk = swk }) null_session,
  )

  finish-Stored :
      (rid sid : Str) (swk : List ℕ) (cid : ℤ) (p : ℕ) (e : GError) (a c : Agent D W)
      → Placed a sid swk p e c
      → Post
          (a.cache_sessions ≡ true)
          (λ _ _ b. Stored sid swk b)
          (finish_session gda rid cid p e c)
  unfolding Placed session_lookup
  finish-Stored rid sid swk cid p e a c (found, held, caching) =
      Post-weaken _ _ _ _ _ (λ on. sym caching ∙ on)
        (λ _ _ d h. (p, rw h.table found, h.swk p ∙ held))
        (finish_session-SameSessions rid cid p e c)

  create_under-Stored :
      (rid label sid type : Str) (swk : List ℕ) (cid : ℤ) (session : Option ℕ) (stm : Stm D W)
      (e : GError) (a : Agent D W)
      → session_lookup a sid ≡ session
      → ((p : ℕ) → session ≡ some p → p < length a.heap)
      → Post
          (a.cache_sessions ≡ true)
          (λ _ _ b. Stored sid swk b)
          (create_under gda rid label sid swk type cid session (some stm) e a)
  unfolding create_under Placed
  create_under-Stored rid label sid type swk cid session stm e a found valid =
      Post-bind _ (λ _ _ b. SameFor sid a b) _ _ _ e a ((evict_session-SameFor sid gda stm).at e a)
        λ _ e' b h.
          Post-bind _ (Placed b sid swk) _ _ _ e' b
            (Post-weaken ⊥ _ _ _ _ (λ k. absurd k) (λ _ _ _ k. k)
              (place_session-Placed session label sid type swk cid e' b (h.found ∙ found)
                λ p k. rw h.objects (valid p k)))
            λ p e'' c k.
              Post-weaken _ _ _ _ _ (λ on. sym h.caching ∙ on) (λ _ _ _ d. d)
                (finish-Stored rid sid swk cid p e'' b c k)

  -- After a session is created under an STM that is loaded and with a type that is supported, it
  -- is found under its identifier and holds the wrapping key that was given, also where it was
  -- known before under another one; and the call does come to an end without reading outside an
  -- object, unless the session cache is on. Pointers to the session must be in range.
  pub session_create-Stored :
      (rid label sid type t : Str) (swk : List ℕ) (cid : ℤ) (stm : Stm D W) (e : GError)
      (a : Agent D W)
      → lookup_swktype a.swk_type_hash type ≡ some t
      → stm_get_by_name a label ≡ some stm
      → ((p : ℕ) → session_lookup a sid ≡ some p → p < length a.heap)
      → Post
          (a.cache_sessions ≡ true)
          (λ _ _ b. Stored sid swk b)
          (session_create_with_cacheid gda rid label sid swk type cid e a)
  unfolding session_create_with_cacheid ◌>>=◌
  session_create-Stored rid label sid type t swk cid stm e a known loaded valid =
      rw (known, loaded)
        (create_under-Stored rid label sid type swk cid (session_lookup a sid) stm e a refl valid)
