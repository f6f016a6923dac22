-- ===== src/KeyAgent/WellFormed/Keys.antt =====
-- The table of keys (key-agent/src/key.cpp) keeps the tables well formed.
use skc_library.Base.{
  ℕ, ◌<◌, ◌≡◌, refl, Option, none, some, List, [], ◌∷◌, Str, arith, Option-cases, inl, inr, length,
  bytes_eq,
}
use skc_library.Base.Table.{lookup, insert, remove}
use skc_library.Types.{GError, Keytype, ℤ, keyagent_error, key_create_invalid_session_id}
use skc_library.KeyAgent.Database.{Gda}
use skc_library.KeyAgent.State.{gpointer_eq, Gpointer, quark, chars, Agent, Key, Attributes}
use skc_library.KeyAgent.Cache.{keydata}
use skc_library.KeyAgent.Key.{
  key_hash_remove, delete_listed, key_remove_by_session, build_delete_key_list, cache_new_key,
  insert_new_key, reject_key, create_checked, create_absent, key_create_with_cacheid, key_create,
  session_lookup,
}
use skc_library.KeyAgent.WellFormed.{
  Preserves, Preserves-frame, Grows-refl, every-insert, every-remove, IsWellFormed,
}
use skc_library.KeyAgent.WellFormed.Caches.{cache_key-Preserves, uncache_key-Preserves}
use skc_library.Effect.{pure, gets, modify, set_error, ◌>>=◌, ◌>>◌}
use skc_library.Effect.Post.{
  Post, Post-option, Post-then, Keeps, keeps_rules, Keeps-pure, Keeps-bind, Keeps-option,
  Keeps-modify,
}

module _ {D W : Type 0} where
  -- A table in which every key is filed under its URL's quark has nothing under an address.
  pub well_formed_chars :
      (s : Str) (a : Agent D W) → IsWellFormed a → lookup (chars s) a.key_hash ≡ none
  well_formed_chars s a v = elim (Option-cases (lookup (chars s) a.key_hash)) [
    | inl h ↦ h
    | inr (key, h) ↦ let wrong : chars s ≡ quark key.url = (v.keys (chars s) key h).0 in cc
  ]

  remove-Preserves :
      (k : Gpointer)
      → Keeps
          (Unit {0})
          Preserves
          (modify (λ (a : Agent D W). record a { key_hash = remove k a.key_hash }))
  remove-Preserves k = Keeps-modify Preserves-frame _ λ a. record {
    grows = Grows-refl a.heap;
    kept = λ v. record {
      sessions = v.sessions;
      keys = every-remove _ k a.key_hash v.keys;
      stms = v.stms;
    };
  }

  ruleset keys_base = (keeps_rules, Preserves-frame)

  module _ (gda : Gda W) where
    -- In a well-formed state the removal of listed keys finds none of them.
    pub delete_listed-nothing :
        (l : List Key) (e : GError) (a : Agent D W)
        → IsWellFormed a
        → delete_listed gda l e a ≡ some (tt, e, a)
    unfolding delete_listed key_hash_remove ◌>>=◌
    delete_listed-nothing [] e a v = refl
    delete_listed-nothing (key ∷ l) e a v =
        rw (well_formed_chars key.url a v, ◌>>=◌) (delete_listed-nothing l e a v)

    pub key_remove_by_session-nothing :
        (p : ℕ) (e : GError) (a : Agent D W)
        → IsWellFormed a
        → key_remove_by_session gda p e a ≡ some (tt, e, a)
    unfolding key_remove_by_session ◌>>=◌
    key_remove_by_session-nothing p e a v =
        delete_listed-nothing (build_delete_key_list p a.key_hash) e a v

    key_hash_remove-Preserves :
        (k : Gpointer) → Keeps (Unit {0}) Preserves (key_hash_remove {D = D} gda k)
    unfolding key_hash_remove
    key_hash_remove-Preserves k = Keeps-bind Preserves-frame _ _ (search keys_base) (elim [
      | none ↦ search keys_base
      | some key ↦ search (keys_base, remove-Preserves, uncache_key-Preserves) depth 8
    ])

    delete_listed-Preserves :
        (l : List Key) → Keeps (Unit {0}) Preserves (delete_listed {D = D} gda l)
    unfolding delete_listed
    delete_listed-Preserves [] = search keys_base
    delete_listed-Preserves (key ∷ l) =
        Keeps-bind Preserves-frame _ _ (key_hash_remove-Preserves _) λ _. delete_listed-Preserves l

    pub key_remove_by_session-Preserves :
        (p : ℕ) → Keeps (Unit {0}) Preserves (key_remove_by_session {D = D} gda p)
    unfolding key_remove_by_session
    key_remove_by_session-Preserves p = search (keys_base, delete_listed-Preserves)

    cache_new_key-Preserves :
        (url : Str) (cid : ℤ) → Keeps (Unit {0}) Preserves (cache_new_key {D = D} gda url cid)
    unfolding cache_new_key
    cache_new_key-Preserves url cid = search (keys_base, cache_key-Preserves)

    -- A new key, of a session that is there.
    new_key-kept :
        (url : Str) (key : Key) (a : Agent D W)
        → key.url ≡ url
        → (IsWellFormed a → (p : ℕ) → key.session ≡ some p → p < length a.heap)
        → Preserves a (record a { key_hash = insert (quark url) key a.key_hash })
    new_key-kept url key a named valid = record {
      grows = Grows-refl a.heap;
      kept = λ v. record {
        sessions = v.sessions;
        keys = every-insert _ (quark url) key a.key_hash (rw named refl, valid v) v.keys;
        stms = v.stms;
      };
    }

    insert_new_key-Preserves :
        (url : Str) (type : Keytype) (attrs : Attributes) (cid : ℤ) (p : ℕ) (e : GError)
        (a : Agent D W)
        → (IsWellFormed a → p < length a.heap)
        → Post (Unit {0}) (λ _ _ b. Preserves a b) (insert_new_key gda url type attrs cid p e a)
    unfolding insert_new_key modify Post
    insert_new_key-Preserves url type attrs cid p e a valid =
        Post-then Preserves-frame (modify _) _ e a
          (new_key-kept url _ a refl λ v q h. ground (arith, valid v))
          λ _. cache_new_key-Preserves url cid

    create_checked-Preserves :
        (url : Str) (type : Keytype) (attrs : Attributes) (sid : Str) (cid : ℤ)
        → Keeps (Unit {0}) Preserves (create_checked {D = D} gda url type attrs sid cid)
    unfolding create_checked gets session_lookup ◌>>=◌
    create_checked-Preserves url type attrs sid cid = record {
      at = λ e a.
          Post-option _ (λ _ _ b. Preserves a b) (session_lookup a sid) _ _ e a
            (λ _. (absent.at e a))
            λ p found.
              Post-then Preserves-frame (insert_new_key gda url type attrs cid p) _ e a
                (insert_new_key-Preserves url type attrs cid p e a
                  λ v. (v.sessions (quark sid) p found).0)
                λ q. Keeps-pure Preserves-frame (some q);
    }
      where
        absent : Keeps (Unit {0}) Preserves (do
          set_error {S = Agent D W} (keyagent_error key_create_invalid_session_id)
          pure {A = Option Str} none)
        absent = search keys_base

    create_absent-Preserves :
        (url : Str) (type : Keytype) (attrs : Option Attributes) (sid : Option Str) (cid : ℤ)
        → Keeps (Unit {0}) Preserves (create_absent {D = D} gda url type attrs sid cid)
    unfolding create_absent reject_key
    create_absent-Preserves url type none sid cid = search keys_base
    create_absent-Preserves url type (some attrs) none cid = search keys_base
    create_absent-Preserves url type (some attrs) (some sid) cid =
        Keeps-option Preserves-frame (lookup keydata attrs) _ _ (search keys_base)
          λ v. create_checked-Preserves url type attrs sid cid

    pub key_create-Preserves :
        (url : Str) (type : Keytype) (attrs : Option Attributes) (sid : Option Str)
        → Keeps (Unit {0}) Preserves (key_create {D = D} gda url type attrs sid)
    unfolding key_create key_create_with_cacheid
    key_create-Preserves url type attrs sid =
        Keeps-bind Preserves-frame _ _ (search keys_base) (elim [
          | none ↦ create_absent-Preserves url type attrs sid _
          | some key ↦ search (keys_base, cache_new_key-Preserves)
        ])
