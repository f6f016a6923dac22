-- ===== src/Pkcs11/Token/Opens.antt =====
-- What the token that `init_apimodule_token` returns can be used for.
use skc_library.Base.{
  ℕ, ◌≡◌, ◌≢◌, ◌⊎◌, inl, inr, refl, Bool, true, false, not, ◌||◌, Option, none, some, Str, arith,
  bytes_eq, ◌==◌, ==_iff, ≟-refl, c_str, subst, ap, ◌∙◌,
}
use skc_library.Base.Table.{lookup, insert, lookup-insert}
use skc_library.Types.{GError, minus_one}
use skc_library.Effect.{pure, raise, modify, ◌>>=◌, ◌>>◌}
use skc_library.Effect.Post.{Post-any, Post_apply, Post, Post-bind, Post-if}
use skc_library.Pkcs11.Cryptoki.{Cryptoki, ckr_ok, ckr_general_error, ck_invalid_handle}
use skc_library.Pkcs11.State.{Token, ApiModule, need, ck, uri_at, cache_apimodule_token}
use skc_library.Pkcs11.Token.{
  findtoken, user_login, open_token, find_and_open, restart, make_token, createtoken, token_session,
  keep_token, init_apimodule_token, new_token,
}

or_else : Token → Option Token → Token
or_else t none = t
or_else t (some u) = u

module _ {W : Type 0} (func_list : Cryptoki W) where
  -- PKCS #11: CK_INVALID_HANDLE is never the handle of an open session.
  abbrev pub OpensValid : Type 0
  OpensValid =
      (slot : ℕ) (w : W)
      → (func_list.open_session slot w).0.0 ≡ ckr_ok
      → (func_list.open_session slot w).0.1 ≢ ck_invalid_handle

  -- A session that can be used, or an error.
  abbrev pub Usable : ℕ → GError → Type 0
  Usable session e = (session ≢ ck_invalid_handle) ⊎ (e ≡ some minus_one)

  abbrev Outcome : ℕ × ℕ → GError → ApiModule W → Type 0
  Outcome r e b = r.0 ≡ ckr_ok → Usable r.1 e

  raised :
      (rv : ℕ) (e : GError) (a : ApiModule W)
      → Post (Unit {0}) Outcome ((do raise minus_one; pure (rv, ck_invalid_handle)) e a)
  unfolding raise pure Post ◌>>=◌
  raised rv e a = λ _. inr refl

  not_ok :
      (rv : ℕ) (s : ℕ) (e : GError) (a : ApiModule W)
      → (rv == ckr_ok) ≡ false
      → Post (Unit {0}) Outcome (pure (rv, s) e a)
  unfolding pure Post
  not_ok rv s e a h = λ k. absurd (ground (arith, h, k))

  done :
      (rv s : ℕ) (e : GError) (a : ApiModule W)
      → s ≢ ck_invalid_handle
      → Post (Unit {0}) Outcome (pure (rv, s) e a)
  unfolding pure Post
  done rv s e a h = λ _. inl h

  module _ (valid : OpensValid) where
    opened :
        (slot : ℕ) (e : GError) (a : ApiModule W)
        → Post
            (Unit {0})
            (λ r _ _. r.0 ≡ ckr_ok → r.1 ≢ ck_invalid_handle)
            (ck (func_list.open_session slot) e a)
    unfolding ck Post
    opened slot e a = valid slot a.world

    open_token-Outcome :
        (p : ℕ) (e : GError) (a : ApiModule W)
        → Post (Unit {0}) Outcome (open_token func_list p e a)
    unfolding open_token need
    open_token-Outcome p e a = Post-bind _ _ _ (uri_at p) _ e a (Post-any _) λ d e1 b _.
        Post-bind _ _ _ (need d.pin) _ e1 b (Post-any _) λ pin e2 c _.
          Post-bind _ (λ r _ _. r.0 ≡ ckr_ok → r.1 ≢ ck_invalid_handle) _
            (ck (func_list.open_session d.slot_id)) _ e2 c (opened d.slot_id e2 c)
            λ r e3 m good.
              Post-if _ Outcome (r.0 == ckr_ok) _ _ e3 m
                (λ ok.
                  Post-bind _ _ _ (user_login func_list r.1 pin) _ e3 m (Post-any _) λ rv e4 n _.
                    Post-if _ Outcome (rv == ckr_ok) _ _ e4 n
                      (λ _. done rv r.1 e4 n (good ((==_iff r.0 ckr_ok).0 ok))) λ _. raised rv e4 n)
                λ _. raised r.0 e3 m

    find_and_open-Outcome :
        (p : ℕ) (e : GError) (a : ApiModule W)
        → Post (Unit {0}) Outcome (find_and_open func_list p e a)
    unfolding find_and_open
    find_and_open-Outcome p e a =
        Post-bind _ _ _ (findtoken func_list p) _ e a (Post-any _) λ found e1 b _.
          Post-if _ Outcome (not (found.0 == ckr_ok) || not found.1) _ _ e1 b
            (λ _. raised found.0 e1 b) λ _. open_token-Outcome p e1 b

    make_token-Outcome :
        (p : ℕ) (create : Bool) (e : GError) (a : ApiModule W)
        → Post (Unit {0}) Outcome (make_token func_list p create e a)
    unfolding make_token restart
    make_token-Outcome p false e a = not_ok ckr_general_error ck_invalid_handle e a refl
    make_token-Outcome p true e a =
        Post-bind _ _ _ (createtoken func_list p) _ e a (Post-any _) λ made e1 b _.
          Post-if _ Outcome (made.0 == ckr_ok) _ _ e1 b (λ _. after made.1 e1 b)
            λ _. raised made.0 e1 b
      where
        after :
            (session : ℕ) (e : GError) (a : ApiModule W)
            → Post (Unit {0}) Outcome (restart func_list session (find_and_open func_list p) e a)
        after session e a =
            Post-bind _ _ _ (ck (func_list.logout session)) _ e a (Post-any _) λ _ e1 b1 _.
              Post-bind _ _ _ (ck (func_list.close_session session)) _ e1 b1 (Post-any _)
                λ _ e2 b2 _.
                  Post-bind _ _ _ (ck func_list.finalize) _ e2 b2 (Post-any _) λ _ e3 b3 _.
                    Post-bind _ _ _ (ck func_list.initialize) _ e3 b3 (Post-any _)
                      λ _ e4 b4 _. find_and_open-Outcome p e4 b4

    token_session-Outcome :
        (p : ℕ) (create : Bool) (e : GError) (a : ApiModule W)
        → Post (Unit {0}) Outcome (token_session func_list p create e a)
    unfolding token_session
    token_session-Outcome p create e a =
        Post-bind _ _ _ (findtoken func_list p) _ e a (Post-any _) λ found e1 b _.
          Post-if _ Outcome (found.0 == ckr_ok) _ _ e1 b
            (λ _.
              Post-if _ Outcome found.1 _ _ e1 b (λ _. find_and_open-Outcome p e1 b)
                λ _. make_token-Outcome p create e1 b)
            λ _. raised found.0 e1 b

    -- A token that is returned is in the table under its label, and can be used.
    abbrev pub Returned : Option Token → GError → ApiModule W → Type 0
    Returned t e b =
        (u : Token)
        → t ≡ some u
        → (lookup u.token_label b.apimodule_token_hash ≡ some u) × Usable u.session e

    kept :
        (t : Token) (e : GError) (a : ApiModule W)
        → Usable t.session e
        → Post (Unit {0}) Returned ((do modify (cache_apimodule_token t); pure (some t)) e a)
    unfolding or_else modify pure cache_apimodule_token Post ◌>>=◌
    kept t e a h = λ u same.
        subst
          (λ v.
            (lookup v.token_label (insert t.token_label t a.apimodule_token_hash) ≡ some v)
            × Usable v.session e)
          (ap (or_else t) same)
          (
            lookup-insert t.token_label t.token_label t a.apimodule_token_hash
                ∙ rw (≟-refl t.token_label) refl,
            h,
          )

    none_kept : (e : GError) (a : ApiModule W) → Post (Unit {0}) Returned (pure none e a)
    unfolding pure Post
    none_kept e a = λ u same. absurd (ground (arith, same))

    keep_token-Returned :
        (label pin : Str) (rv s : ℕ) (e : GError) (a : ApiModule W)
        → (rv ≡ ckr_ok → Usable s e)
        → Post (Unit {0}) Returned (keep_token func_list label pin rv s e a)
    unfolding keep_token
    keep_token-Returned label pin rv s e a h =
        Post-if _ Returned (rv == ckr_ok) _ _ e a
          (λ ok.
            kept (record (new_token label pin) { session = s }) e a (h ((==_iff rv ckr_ok).0 ok)))
          λ _. none_kept e a

    outcome-Returned :
        (p : ℕ) (create : Bool) (e : GError) (a : ApiModule W)
        → Post (Unit {0}) Returned (init_apimodule_token func_list p create e a)
    unfolding init_apimodule_token
    outcome-Returned p create e a = Post-bind _ _ _ (uri_at p) _ e a (Post-any _) λ d e1 b _.
        Post-bind _ _ _ (need d.token_label) _ e1 b (Post-any _) λ name e2 c _.
          Post-bind _ _ _ (need d.pin) _ e2 c (Post-any _) λ pin e3 m _.
            Post-bind _ Outcome _ (token_session func_list p create) _ e3 m
              (token_session-Outcome p create e3 m)
              λ r e4 n good. keep_token-Returned (c_str name) (c_str pin) r.0 r.1 e4 n good

    -- If the library opens no session with the invalid handle, then a token that
    -- `init_apimodule_token` returns is in the table under its label, and it has an open session or
    -- else an error was set.
    pub init_apimodule_token-Usable :
        (p : ℕ) (create : Bool) (t : Token) (e e' : GError) (a b : ApiModule W)
        → init_apimodule_token func_list p create e a ≡ some (some t, e', b)
        → (lookup t.token_label b.apimodule_token_hash ≡ some t) × Usable t.session e'
    init_apimodule_token-Usable p create t e e' a b returned =
        Post_apply _ Returned _ (outcome-Returned p create e a) returned t refl
