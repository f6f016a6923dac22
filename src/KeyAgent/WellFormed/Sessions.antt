-- ===== src/KeyAgent/WellFormed/Sessions.antt =====
-- The operations on sessions (key-agent/src/session.cpp) keep the state well formed.
use skc_library.Base.{
  ℕ, ◌<◌, ◌≡◌, refl, true, false, Option, none, some, List, [], ◌∷◌, Str, arith, inl, inr,
  Bool-cases, length, bytes_eq, length-append, beq_bytes, if◌then◌else◌, get_or, get_or-append_end,
}
use skc_library.Base.Table.{remove}
use skc_library.Types.{GError, ℤ, is_minus_one, keyagent_error, session_create_invalid_swk_type}
use skc_library.KeyAgent.Database.{Gda}
use skc_library.KeyAgent.State.{
  gpointer_eq, Gpointer, quark, Agent, Stm, Session, session_at, set_session_at, null_session,
}
use skc_library.KeyAgent.Key.{session_lookup}
use skc_library.KeyAgent.SwkType.{lookup_swktype}
use skc_library.KeyAgent.Cache.{cache_session}
use skc_library.KeyAgent.Session.{
  session_hash_remove, evict_session, renew_swk, add_session, place_session, finish_session,
  create_under, session_create_with_cacheid, session_create,
}
use skc_library.KeyAgent.WellFormed.{
  Preserves, Preserves-frame, Preserves-heap, Grows, Grows-refl, Grows-set, Grows-append,
  SessionsOk-Grows, KeysOk-Grows, StmsOk-Grows, every-insert, every-remove, IsWellFormed,
}
use skc_library.KeyAgent.WellFormed.Caches.{cache_session-Preserves}
use skc_library.KeyAgent.WellFormed.Keys.{key_remove_by_session-Preserves}
use skc_library.KeyAgent.WellFormed.Stms.{sessions_base, after-Preserves, stm_set_session-Preserves}
use skc_library.Effect.{pure, gets, modify, raise, ◌>>=◌, ◌>>◌}
use skc_library.Effect.Post.{
  Post, Post-option, Post-bind, Keeps, Keeps-bind, Keeps-option, Keeps-modify,
}

module _ {D W : Type 0} where
  module _ (gda : Gda W) where
    drop_session-Preserves :
        (k : Gpointer)
        → Keeps
            (Unit {0})
            Preserves
            (modify (λ (a : Agent D W). record a { session_hash = remove k a.session_hash }))
    drop_session-Preserves k = Keeps-modify Preserves-frame _ λ a. record {
      grows = Grows-refl a.heap;
      kept = λ v. record {
        sessions = every-remove _ k a.session_hash v.sessions;
        keys = v.keys;
        stms = v.stms;
      };
    }

    session_hash_remove-Preserves :
        (k : Gpointer) → Keeps (Unit {0}) Preserves (session_hash_remove {D = D} gda k)
    unfolding session_hash_remove
    session_hash_remove-Preserves k = Keeps-bind Preserves-frame _ _ (search sessions_base) (elim [
      | none ↦ search sessions_base
      | some p ↦
          search (sessions_base, drop_session-Preserves, key_remove_by_session-Preserves) depth 8
    ])

    evict_session-Preserves :
        (stm : Stm D W) (sid : Str) → Keeps (Unit {0}) Preserves (evict_session gda stm sid)
    unfolding evict_session
    evict_session-Preserves stm sid =
        Keeps-option Preserves-frame stm.session _ _ (search sessions_base)
          λ q. search (sessions_base, session_hash_remove-Preserves) depth 8

    -- A new session is filed under its identifier at the end of the heap.
    add_session-Preserves :
        (label sid : Str) (swk : List ℕ) (type : Str) (cid : ℤ) (a : Agent D W)
        → Preserves a (add_session label sid swk type cid a)
    unfolding add_session
    add_session-Preserves label sid swk type cid a =
        let g : Grows a.heap (add_session label sid swk type cid a).heap = Grows-append a.heap _ in
        record {
          grows = g;
          kept = λ v. record {
            sessions =
                every-insert _ (quark sid) (length a.heap) a.session_hash
                  (
                    omega (arith, length-append a.heap (new ∷ [])),
                    rw (get_or-append_end a.heap new null_session) refl,
                  )
                  (SessionsOk-Grows a.heap _ a.session_hash g v.sessions);
            keys = KeysOk-Grows a.heap _ a.key_hash g v.keys;
            stms = StmsOk-Grows a.heap _ a.stm_hash g v.stms;
          };
        }
      where
        new : Session
        new = record { swk = swk; name = label; session_id = sid; swk_type = type; cache_id = cid }

    renew_swk-Preserves : (p : ℕ) (swk : List ℕ) (a : Agent D W) → Preserves a (renew_swk p swk a)
    unfolding renew_swk set_session_at session_at
    renew_swk-Preserves p swk a =
        elim (Bool-cases (beq_bytes (get_or a.heap p null_session).swk swk)) [
          | inl e ↦ rw (renew_swk, e) (Preserves-frame.same a)
          | inr e ↦ rw (renew_swk, e) (Preserves-heap a _ (Grows-set a.heap p _ refl))
        ]

    add_session_end :
        (label sid : Str) (swk : List ℕ) (type : Str) (cid : ℤ) (a : Agent D W)
        → length a.heap < length (add_session label sid swk type cid a).heap
    unfolding add_session
    add_session_end label sid swk type cid a = omega (
      arith,
      length-append a.heap (
          record { swk = swk; name = label; session_id = sid; swk_type = type; cache_id = cid }
          ∷ []),
    )

    -- The pointer that a placed session gets.
    Placed : Agent D W → ℕ → GError → Agent D W → Type 0
    Placed a p e b = Preserves a b × (p < length b.heap)

    place_session-Placed :
        (session : Option ℕ) (label sid : Str) (swk : List ℕ) (type : Str) (cid : ℤ) (e : GError)
        (a : Agent D W)
        → ((p : ℕ) → session ≡ some p → p < length a.heap)
        → Post (Unit {0}) (Placed a) (place_session session label sid swk type cid e a)
    unfolding place_session modify gets pure ◌>>=◌ Post Placed
    place_session-Placed none label sid swk type cid e a valid =
        (add_session-Preserves label sid swk type cid a, add_session_end label sid swk type cid a)
    place_session-Placed (some p) label sid swk type cid e a valid =
        let r : Preserves a (renew_swk p swk a) = renew_swk-Preserves p swk a in
        (r, omega (arith, r.grows.size, valid p refl))

    finish_session-Preserves :
        (rid : Str) (cid : ℤ) (p : ℕ) (e : GError) (a : Agent D W)
        → p < length a.heap
        → Post (Unit {0}) (λ _ _ b. Preserves a b) (finish_session gda rid cid p e a)
    unfolding finish_session
    finish_session-Preserves rid cid p e a valid =
        Post-bind _ (λ _ _ b. Preserves a b) _
          (if is_minus_one cid then cache_session gda p else pure true) _ e a (copied.at e a)
          λ x e' b h.
            after-Preserves a b _ h
              (stm_set_session-Preserves rid p e' b (omega (arith, valid, h.grows.size)))
      where
        copied :
            Keeps
              (Unit {0})
              Preserves
              (if is_minus_one cid then cache_session {D = D} gda p else pure true)
        copied = search (sessions_base, cache_session-Preserves)

    create_under-Preserves :
        (rid label sid : Str) (swk : List ℕ) (type : Str) (cid : ℤ) (session : Option ℕ)
        (stm : Option (Stm D W)) (e : GError) (a : Agent D W)
        → ((p : ℕ) → session ≡ some p → p < length a.heap)
        → Post
            (Unit {0})
            (λ _ _ b. Preserves a b)
            (create_under gda rid label sid swk type cid session stm e a)
    unfolding create_under Placed Post raise pure ◌>>=◌
    create_under-Preserves rid label sid swk type cid session none e a valid =
        Preserves-frame.same a
    create_under-Preserves rid label sid swk type cid session (some stm) e a valid =
        Post-bind _ (λ _ _ b. Preserves a b) _ (evict_session gda stm sid) _ e a
          ((evict_session-Preserves stm sid).at e a)
          λ _ e' b h. after-Preserves a b _ h (
            Post-bind _ (Placed b) _ (place_session session label sid swk type cid) _ e' b
              (place_session-Placed session label sid swk type cid e' b
                λ p k. omega (arith, valid p k, h.grows.size))
              λ p e'' c k. after-Preserves b c _ k.0 (finish_session-Preserves rid cid p e'' c k.1))

    -- Creating a session, at a state in which the pointers to sessions are in range.
    pub session_create-Preserves :
        (rid label sid : Str) (swk : List ℕ) (type : Str) (e : GError) (a : Agent D W)
        → IsWellFormed a
        → Post (Unit {0}) (λ _ _ b. Preserves a b) (session_create gda rid label sid swk type e a)
    unfolding session_create session_create_with_cacheid gets raise pure ◌>>=◌ session_lookup
    session_create-Preserves rid label sid swk type e a v =
        Post-option _ (λ _ _ b. Preserves a b) (lookup_swktype a.swk_type_hash type) _ _ e a
          (λ _. unsupported.at e a)
          λ t _.
            create_under-Preserves rid label sid swk type _ (session_lookup a sid) _ e a
              λ p k. (v.sessions (quark sid) p k).0
      where
        unsupported :
            Keeps (Unit {0}) Preserves (do
              raise {S = Agent D W} (keyagent_error session_create_invalid_swk_type)
              pure false)
        unsupported = search sessions_base
