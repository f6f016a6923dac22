-- ===== src/KeyAgent/Session/Frames.antt =====
-- What copying a session to the database and handing it to an STM leave alone.
use skc_library.Base.{
  ℕ, zero, suc, ◌≡◌, refl, ◌∙◌, Option, none, some, true, List, [], ◌∷◌, Str, length, set, get_or,
  get_elem?, length-set,
}
use skc_library.Types.{ℤ}
use skc_library.KeyAgent.Database.{Gda, SessionRow}
use skc_library.KeyAgent.State.{
  Keeps-call, Session, Agent, Stm, Request, session_at, set_session_at, null_session,
}
use skc_library.Effect.{modify, pure, ◌>>=◌, ◌>>◌}
use skc_library.Effect.Post.{
  Post, Frame, Keeps, keeps_rules, Keeps-bind, Keeps-option, Keeps-modify, Keeps-fault,
}
use skc_library.KeyAgent.Stm.{put_stm, put_request, set_session_found, stm_set_session}
use skc_library.KeyAgent.Cache.{
  generate_fake_id, session_set_cache_id, get_session_from_model, get_session, session_written,
  session_stored, cache_session,
}

set_cache_id-swk :
    (l : List Session) (p q : ℕ) (id : ℤ)
    → (get_or (set l p (record (get_or l p null_session) { cache_id = id })) q null_session).swk
      ≡ (get_or l q null_session).swk
set_cache_id-swk [] p q id = refl
set_cache_id-swk (s ∷ l) zero zero id = refl
set_cache_id-swk (s ∷ l) zero (suc q) id = refl
set_cache_id-swk (s ∷ l) (suc p) zero id = refl
set_cache_id-swk (s ∷ l) (suc p) (suc q) id = set_cache_id-swk l p q id

module _ {D W : Type 0} where
  -- The table of sessions, the objects behind it and their wrapping keys are the same.
  pub record SameSessions (a b : Agent D W) : Type 0 where
    pub table : b.session_hash ≡ a.session_hash
    pub size : length b.heap ≡ length a.heap
    pub swk : (q : ℕ) → (session_at b q).swk ≡ (session_at a q).swk

  pub SameSessions-frame : Frame SameSessions
  unfolding session_at
  SameSessions-frame = record {
    same = λ a. record { table = refl; size = refl; swk = λ q. refl };
    chain = λ a b c h k. record {
      table = k.table ∙ h.table;
      size = k.size ∙ h.size;
      swk = λ q. k.swk q ∙ h.swk q;
    };
  }

  SameSessions-outside : (a : Agent D W) (w : W) → SameSessions a (record a { world = w })
  unfolding session_at
  SameSessions-outside a w = record { table = refl; size = refl; swk = λ q. refl }

  session_set_cache_id-SameSessions :
      {bad : Type 0} (p : ℕ) (id : ℤ)
      → Keeps bad SameSessions (session_set_cache_id {D = D} {W = W} p id)
  unfolding session_set_cache_id session_at set_session_at
  session_set_cache_id-SameSessions p id = Keeps-modify SameSessions-frame _ λ a. record {
    table = refl;
    size = length-set a.heap p _;
    swk = λ q. set_cache_id-swk a.heap p q id;
  }

  generate_fake_id-SameSessions :
      {bad : Type 0} → Keeps bad SameSessions (generate_fake_id {D = D} {W = W})
  unfolding generate_fake_id session_at Post
  generate_fake_id-SameSessions = record {
    at = λ e a. record { table = refl; size = refl; swk = λ q. refl };
  }

  ruleset cache_rules = (
    keeps_rules, Keeps-fault, Keeps-call, SameSessions-outside, SameSessions-frame,
    session_set_cache_id-SameSessions, generate_fake_id-SameSessions,
  )

  -- The branch of `__keyagent_cache_session` without a cache.
  pub fake_session_id-SameSessions :
      {bad : Type 0} (p : ℕ)
      → Keeps bad SameSessions
          (generate_fake_id {D = D} {W = W} >>= λ id. session_set_cache_id p id >> pure true)
  fake_session_id-SameSessions p = search cache_rules

  put_stm-SameSessions :
      {bad : Type 0} (name : Str) (stm : Stm D W)
      → Keeps bad SameSessions (modify (put_stm name stm))
  unfolding modify put_stm session_at Post
  put_stm-SameSessions name stm = record {
    at = λ e a. record { table = refl; size = refl; swk = λ q. refl };
  }

  put_request-SameSessions :
      {bad : Type 0} (id : Str) (r : Request D)
      → Keeps bad SameSessions (modify {S = Agent D W} (put_request id r))
  unfolding modify put_request session_at Post
  put_request-SameSessions id r = record {
    at = λ e a. record { table = refl; size = refl; swk = λ q. refl };
  }

  ruleset stm_rules = (
    keeps_rules, Keeps-call, SameSessions-outside, SameSessions-frame, put_stm-SameSessions,
    put_request-SameSessions,
  )

  set_session_found-SameSessions :
      {bad : Type 0} (rid : Str) (p : ℕ) (s : Session) (stm : Option (Stm D W))
      (r : Option (Request D))
      → Keeps bad SameSessions (set_session_found rid p s stm r)
  unfolding set_session_found
  set_session_found-SameSessions rid p s none r = search stm_rules
  set_session_found-SameSessions rid p s (some stm) none = search stm_rules
  set_session_found-SameSessions rid p s (some stm) (some r) = search stm_rules depth 9

  pub stm_set_session-SameSessions :
      {bad : Type 0} (rid : Str) (p : ℕ)
      → Keeps bad SameSessions (stm_set_session {D = D} {W = W} rid p)
  unfolding stm_set_session
  stm_set_session-SameSessions rid p = search (stm_rules, set_session_found-SameSessions) depth 9

  module _ (gda : Gda W) where
    get_session_from_model-SameSessions :
        (rows : List SessionRow) (i : ℕ)
        → Keeps (Unit {0}) SameSessions (get_session_from_model {D = D} gda rows i)
    unfolding get_session_from_model
    get_session_from_model-SameSessions rows i =
        Keeps-option SameSessions-frame (get_elem? rows i) _ _ (search cache_rules) λ r.
          Keeps-option SameSessions-frame r.swk _ _ (search cache_rules) λ swk. search cache_rules

    session_written-SameSessions :
        (p : ℕ) (s : Session) → Keeps (Unit {0}) SameSessions (session_written {D = D} gda p s)
    unfolding session_written get_session
    session_written-SameSessions p s =
        Keeps-bind SameSessions-frame _ _
          (Keeps-bind SameSessions-frame _ _ (search cache_rules) (elim [
            | none ↦ search cache_rules
            | some rows ↦ get_session_from_model-SameSessions rows 0
          ]))
          (elim [ none ↦ search cache_rules | some d ↦ search cache_rules ])

    pub cache_session-SameSessions :
        (p : ℕ) → Keeps (Unit {0}) SameSessions (cache_session {D = D} gda p)
    unfolding cache_session session_stored
    cache_session-SameSessions p = search (cache_rules, session_written-SameSessions) depth 8
