-- ===== src/KeyAgent/Key/Presence.antt =====
-- A key that is made is in the table of keys, and stays there while it is copied to the database.
use skc_library.Base.{
  ℕ, ◌≡◌, refl, Bool, true, Option, none, some, Str, arith, bytes_eq, is_some, ≟-refl, get_elem?,
  Option-cases, inl, inr,
}
use skc_library.Base.Table.{Table, lookup, insert, lookup-insert}
use skc_library.Types.{GError, Keytype, ℤ}
use skc_library.KeyAgent.Database.{Gda, CacheTable}
use skc_library.KeyAgent.State.{gpointer_eq, Gpointer, quark, Agent, Key, Attributes, Keeps-call}
use skc_library.Effect.{modify, gets, pure, ◌>>=◌}
use skc_library.Effect.Post.{
  Post, Post_apply, Post-option, Post-bind, Frame, Keeps, keeps_rules, Keeps-bind, Keeps-option,
  Keeps-fault,
}
use skc_library.KeyAgent.Cache.{key_lookup, key_set_cache_id, generate_fake_id, keydata}
use skc_library.KeyAgent.Cache.Keys.{
  cache_key, key_outcome, key_stored, key_written, fake_key_id, get_key, get_key_from_model,
  cache_rsa_key_attrs, cache_key_attr, delete_key_and_attrs, delete_key,
}
use skc_library.KeyAgent.Key.{
  key_create, key_create_with_cacheid, create_absent, create_checked, insert_new_key, cache_new_key,
  reject_key, session_lookup,
}

some_insert :
    (k j : Gpointer) (v : Key) (t : Table Gpointer Key)
    → is_some (lookup j t) ≡ true
    → is_some (lookup j (insert k v t)) ≡ true
some_insert k j v t h = ground (arith, lookup-insert k j v t)

module _ {D W : Type 0} (url : Str) where
  -- A key that is there stays there.
  pub record Present (a b : Agent D W) : Type 0 where
    pub stays : is_some (key_lookup a url) ≡ true → is_some (key_lookup b url) ≡ true

  Present-frame : Frame Present
  Present-frame = record {
    same = λ a. record { stays = λ h. h };
    chain = λ a b c h k. record { stays = λ p. k.stays (h.stays p) };
  }

  Present-outside : (a : Agent D W) (w : W) → Present a (record a { world = w })
  unfolding key_lookup
  Present-outside a w = record { stays = λ h. h }

  module _ (gda : Gda W) where
    delete_key-Present :
        (id : ℤ) (t : CacheTable) → Keeps (Unit {0}) Present (delete_key {D = D} gda id t)
    unfolding delete_key modify key_lookup Post
    delete_key-Present id t = record { at = λ e a. record { stays = λ h. h } }

    generate_fake_id-Present : Keeps (Unit {0}) Present (generate_fake_id {D = D} {W = W})
    unfolding generate_fake_id key_lookup Post
    generate_fake_id-Present = record { at = λ e a. record { stays = λ h. h } }

    key_set_cache_id-Present :
        (u : Str) (id : ℤ) → Keeps (Unit {0}) Present (key_set_cache_id {D = D} {W = W} u id)
    unfolding key_set_cache_id key_lookup Post
    key_set_cache_id-Present u id = record {
      at = λ e a. elim (Option-cases (key_lookup a u)) [
        | inl h ↦ rw (h, Post) tt
        | inr (k, h) ↦
            rw (h, Post) (record { stays = some_insert (quark u) (quark url) _ a.key_hash })
      ];
    }

    ruleset present_rules = (
      keeps_rules, Keeps-fault, Keeps-call, Present-frame, Present-outside, delete_key-Present,
      generate_fake_id-Present,
    )

    delete_key_and_attrs-Present :
        (id : ℤ) → Keeps (Unit {0}) Present (delete_key_and_attrs {D = D} gda id)
    unfolding delete_key_and_attrs
    delete_key_and_attrs-Present id = search present_rules

    get_key-Present : (u : Str) → Keeps (Unit {0}) Present (get_key {D = D} gda u)
    unfolding get_key get_key_from_model
    get_key-Present u = Keeps-bind Present-frame _ _ (Keeps-call Present Present-outside _) (elim [
      | none ↦ search present_rules
      | some rows ↦
          Keeps-bind Present-frame _ _
            (Keeps-option Present-frame (get_elem? rows 0) _ _ (search present_rules)
              λ r. search present_rules)
            λ r. search present_rules
    ])

    cache_rsa_key_attrs-Present :
        (k : Key) (id : ℤ) → Keeps (Unit {0}) Present (cache_rsa_key_attrs {D = D} gda k id)
    unfolding cache_rsa_key_attrs cache_key_attr
    cache_rsa_key_attrs-Present k id =
        Keeps-option Present-frame (lookup keydata k.attributes) _ _ (search present_rules)
          λ v. search present_rules

    key_written-Present : (k : Key) → Keeps (Unit {0}) Present (key_written {D = D} gda k)
    unfolding key_written
    key_written-Present k = Keeps-bind Present-frame _ _ (get_key-Present k.url) (elim [
      | none ↦ search present_rules
      | some r ↦
          search (present_rules, cache_rsa_key_attrs-Present, delete_key_and_attrs-Present) depth 8
    ])

    key_stored-Present : (k : Key) → Keeps (Unit {0}) Present (key_stored {D = D} gda k)
    unfolding key_stored
    key_stored-Present k =
        Keeps-option Present-frame k.session _ _ (search present_rules)
          λ p. search (present_rules, key_written-Present) depth 8

    key_outcome-Present :
        (on : Bool) (k : Option Key) → Keeps (Unit {0}) Present (key_outcome {D = D} gda on k)
    unfolding key_outcome fake_key_id
    key_outcome-Present on none = search present_rules
    key_outcome-Present on (some k) = search (present_rules, key_stored-Present)

    pub cache_key-Present : (u : Str) → Keeps (Unit {0}) Present (cache_key {D = D} gda u)
    unfolding cache_key
    cache_key-Present u =
        search (present_rules, key_outcome-Present, key_set_cache_id-Present) depth 8

    -- The quark that is returned says that the key is there.
    abbrev pub Made : Option Str → GError → Agent D W → Type 0
    Made q e b = is_some q ≡ true → is_some (key_lookup b url) ≡ true

    cache_new_key-Present :
        (u : Str) (cid : ℤ) → Keeps (Unit {0}) Present (cache_new_key {D = D} gda u cid)
    unfolding cache_new_key
    cache_new_key-Present u cid = search (present_rules, cache_key-Present)

    -- Caching a key that is there, and returning its quark.
    cached-Made :
        (u : Str) (cid : ℤ) (e : GError) (a : Agent D W)
        → is_some (key_lookup a url) ≡ true
        → Post (Unit {0}) Made ((cache_new_key gda u cid >>= λ q. pure (some q)) e a)
    unfolding pure Post
    cached-Made u cid e a h =
        Post-bind _ _ _ (cache_new_key gda u cid) _ e a ((cache_new_key-Present u cid).at e a)
          λ q e' b k _. k.stays h

    none-Made : (q : Option Str) (a : Agent D W) → q ≡ none → (e : GError) → Made q e a
    none-Made q a h e = rw h λ k. absurd (ground arith)

    insert_new_key-Made :
        (type : Keytype) (attrs : Attributes) (cid : ℤ) (p : ℕ) (e : GError) (a : Agent D W)
        → Post
            (Unit {0})
            Made
            ((insert_new_key gda url type attrs cid p >>= λ q. pure (some q)) e a)
    unfolding insert_new_key modify key_lookup ◌>>=◌
    insert_new_key-Made type attrs cid p e a =
        cached-Made url cid e _
          (rw (key_lookup, lookup-insert (quark url) (quark url), ≟-refl (quark url)) refl)

    create_absent-Made :
        (type : Keytype) (attrs : Option Attributes) (sid : Option Str) (cid : ℤ) (e : GError)
        (a : Agent D W)
        → Post (Unit {0}) Made (create_absent gda url type attrs sid cid e a)
    unfolding create_absent create_checked reject_key Post ◌>>=◌
    create_absent-Made type none sid cid e a = none-Made none a refl e
    create_absent-Made type (some attrs) none cid e a = none-Made none a refl e
    create_absent-Made type (some attrs) (some sid) cid e a =
        Post-option _ Made (lookup keydata attrs) _ _ e a (λ h. none-Made none a refl e)
          λ v h.
            Post-option _ Made (session_lookup a sid) _ _ e a (λ k. none-Made none a refl e)
              λ p k. insert_new_key-Made type attrs cid p e a

    pub key_create-Made :
        (type : Keytype) (attrs : Option Attributes) (sid : Option Str) (e : GError) (a : Agent D W)
        → Post (Unit {0}) Made (key_create gda url type attrs sid e a)
    unfolding key_create key_create_with_cacheid gets ◌>>=◌
    key_create-Made type attrs sid e a =
        Post-option _ Made (key_lookup a url) _ _ e a (λ h. create_absent-Made type attrs sid _ e a)
          λ k h. cached-Made url _ e a (rw h refl)

    -- Where `__keyagent_key_create` returns a quark, for a new key or an old one, the table of keys
    -- has a key under the URL.
    pub key_create-Present :
        (type : Keytype) (attrs : Option Attributes) (sid : Option Str) (q : Str) (e e' : GError)
        (a b : Agent D W)
        → key_create gda url type attrs sid e a ≡ some (some q, e', b)
        → is_some (key_lookup b url) ≡ true
    key_create-Present type attrs sid q e e' a b returned =
        Post_apply _ Made _ (key_create-Made type attrs sid e a) returned refl
