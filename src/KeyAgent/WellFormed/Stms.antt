-- ===== src/KeyAgent/WellFormed/Stms.antt =====
-- The operations on STMs (key-agent/stm/stm_init.cpp) keep the state well formed.
use skc_library.Base.{
  ℕ, ◌<◌, ◌≡◌, refl, ap, true, Option, none, some, List, Str, arith, length, bytes_eq,
}
use skc_library.Base.Table.{lookup}
use skc_library.Types.{GError}
use skc_library.KeyAgent.State.{
  gpointer_eq, Gpointer, quark, Agent, Action, Stm, Session, Request, session_at, set_session_at,
  null_session, Keeps-call,
}
use skc_library.KeyAgent.Stm.{
  stm_get_by_name, put_stm, put_request, stm_apimodule_enable, stm_set_session, set_session_found,
  hand_session, no_session, stm_get_challenge, challenge_found,
}
use skc_library.KeyAgent.WellFormed.{
  Preserves, Preserves-frame, Preserves-heap, Preserves-outside, Grows, Grows-refl, Grows-set,
  Grows-append, SessionsOk-Grows, KeysOk-Grows, StmsOk-Grows, every-insert, every-remove,
  IsWellFormed,
}
use skc_library.Effect.{pure, gets, modify, ◌>>=◌}
use skc_library.Effect.Post.{
  Post, Post-option, Post-bind, Post-then, Keeps, keeps_rules, Keeps-bind, Keeps-option,
  Keeps-modify, Keeps-pure, Post-if, Post-weaken,
}

module _ {D W : Type 0} where
  pub ruleset sessions_base = (keeps_rules, Preserves-frame, Keeps-call, Preserves-outside)

  -- What holds after a second action, from what it does to the state between.
  pub after-Preserves :
      {A : Type 0} (a b : Agent D W) (r : Option (A × GError × Agent D W))
      → Preserves a b
      → Post (Unit {0}) (λ _ _ c. Preserves b c) r
      → Post (Unit {0}) (λ _ _ c. Preserves a c) r
  after-Preserves a b r h k =
      Post-weaken _ _ _ _ _ (λ z. z) (λ _ _ c t. Preserves-frame.chain a b c h t) k

  -- An STM that is replaced by one of the same label, whose session is there.
  put_stm-Preserves :
      (name : Str) (stm : Stm D W) (a : Agent D W)
      → (IsWellFormed a → name ≡ stm.label)
      → (IsWellFormed a → (p : ℕ) → stm.session ≡ some p → p < length a.heap)
      → Preserves a (put_stm name stm a)
  unfolding put_stm
  put_stm-Preserves name stm a named valid = record {
    grows = Grows-refl a.heap;
    kept = λ v. record {
      sessions = v.sessions;
      keys = v.keys;
      stms = every-insert _ (quark name) stm a.stm_hash (ap quark (named v), valid v) v.stms;
    };
  }

  pub put_request-Preserves :
      (id : Str) (r : Request D)
      → Keeps (Unit {0}) Preserves (modify {S = Agent D W} (put_request id r))
  unfolding put_request
  put_request-Preserves id r = Keeps-modify Preserves-frame _ λ a. record {
    grows = Grows-refl a.heap;
    kept = λ v. record { sessions = v.sessions; keys = v.keys; stms = v.stms };
  }

  -- An STM of the table has the label under which it is found.
  label_of :
      (name : Str) (stm : Stm D W) (a : Agent D W)
      → stm_get_by_name a name ≡ some stm
      → IsWellFormed a
      → name ≡ stm.label
  unfolding stm_get_by_name
  label_of name stm a found v =
      let same : quark name ≡ quark stm.label = (v.stms (quark name) stm found).0 in cc

  hand_session-Preserves :
      (rid : Str) (p : ℕ) (s : Session) (stm : Stm D W) (r : Request D) (e : GError) (a : Agent D W)
      → p < length a.heap
      → stm_get_by_name a s.name ≡ some stm
      → Post (Unit {0}) (λ _ _ b. Preserves a b) (hand_session rid p s stm r e a)
  unfolding hand_session modify Post
  hand_session-Preserves rid p s stm r e a valid found =
      Post-then Preserves-frame (modify _) _ e a
        (put_stm-Preserves s.name (record stm { session = some p }) a (label_of s.name stm a found)
          λ v q h. ground (arith, valid))
        λ _. search (sessions_base, put_request-Preserves) depth 8

  pub stm_set_session-Preserves :
      (rid : Str) (p : ℕ) (e : GError) (a : Agent D W)
      → p < length a.heap
      → Post (Unit {0}) (λ _ _ b. Preserves a b) (stm_set_session rid p e a)
  unfolding stm_set_session gets ◌>>=◌
  stm_set_session-Preserves rid p e a valid =
      go (stm_get_by_name a (session_at a p).name) (lookup rid a.apimodule_loadkey_hash) refl
    where
      refused : Keeps (Unit {0}) Preserves (no_session {D = D} {W = W})
      refused = search sessions_base

      go :
          (stm : Option (Stm D W)) (r : Option (Request D))
          → stm_get_by_name a (session_at a p).name ≡ stm
          → Post
              (Unit {0})
              (λ _ _ b. Preserves a b)
              (set_session_found rid p (session_at a p) stm r e a)
      go none r found = refused.at e a
      go (some stm) none found = refused.at e a
      go (some stm) (some r) found =
          hand_session-Preserves rid p (session_at a p) stm r e a valid found

  pub stm_apimodule_enable-Preserves :
      (name : Str) → Keeps (Unit {0}) Preserves (stm_apimodule_enable {D = D} {W = W} name)
  unfolding stm_apimodule_enable gets ◌>>=◌ modify pure Post
  stm_apimodule_enable-Preserves name = record {
    at = λ e a.
        Post-option _ (λ _ _ b. Preserves a b) (stm_get_by_name a name) _ _ e a
          (λ _. Preserves-frame.same a)
          λ stm found.
            let put : Preserves a (put_stm name (record stm { apimodule = true }) a) =
              put_stm-Preserves name (record stm { apimodule = true }) a (label_of name stm a found)
                λ v p h. ((v.stms (quark name) stm found).1 p h) in
            record {
              grows = put.grows;
              kept = λ v. record {
                sessions = (put.kept v).sessions;
                keys = (put.kept v).keys;
                stms = (put.kept v).stms;
              };
            };
  }

  pub stm_get_challenge-Preserves :
      (rid : Str) (nonce : List ℕ) (name : Str)
      → Keeps (Unit {0}) Preserves (stm_get_challenge {D = D} {W = W} rid nonce name)
  unfolding stm_get_challenge
  stm_get_challenge-Preserves rid nonce name = search (sessions_base, found) depth 8
    where
      found :
          (stm : Option (Stm D W)) (r : Option (Request D))
          → Keeps (Unit {0}) Preserves (challenge_found rid nonce name stm r)
      found none r = search sessions_base
      found (some stm) none = search sessions_base
      found (some stm) (some r) = search (sessions_base, put_request-Preserves) depth 8
