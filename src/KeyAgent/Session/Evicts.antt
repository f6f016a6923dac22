-- ===== src/KeyAgent/Session/Evicts.antt =====
-- What evicting an STM's former session leaves alone.
use skc_library.Base.{
  ℕ, ◌≡◌, refl, ◌∙◌, none, some, false, List, [], ◌∷◌, Str, beq_bytes, bytes_eq, if◌then◌else◌,
  Bool-cases, inl, inr,
}
use skc_library.Base.Table.{remove, lookup-remove}
use skc_library.Types.{ℤ}
use skc_library.KeyAgent.Database.{Gda, CacheTable}
use skc_library.KeyAgent.State.{
  gpointer_eq, g_direct_equal, Gpointer, quark, Agent, Stm, chars, Key,
}
use skc_library.Effect.{modify, pure}
use skc_library.Effect.Post.{
  Post, Frame, Keeps, keeps_rules, Keeps-bind, Keeps-option, Keeps-gets, Keeps-pure,
}
use skc_library.KeyAgent.Key.{session_lookup, key_remove_by_session, delete_listed, key_hash_remove}
use skc_library.KeyAgent.Cache.Keys.{
  uncache_key, mark_for_deletion, delete_key_and_attrs, delete_key,
}
use skc_library.KeyAgent.Session.{evict_session, session_hash_remove}

module _ {D W : Type 0} (sid : Str) where
  -- The session found under `sid`, and every session object, is the same.
  pub record SameFor (a b : Agent D W) : Type 0 where
    pub found : session_lookup b sid ≡ session_lookup a sid
    pub objects : b.heap ≡ a.heap
    pub caching : b.cache_sessions ≡ a.cache_sessions

  SameFor-frame : Frame SameFor
  unfolding session_lookup
  SameFor-frame = record {
    same = λ a. record { found = refl; objects = refl; caching = refl };
    chain = λ a b c h k. record {
      found = k.found ∙ h.found;
      objects = k.objects ∙ h.objects;
      caching = k.caching ∙ h.caching;
    };
  }

  module _ (gda : Gda W) {bad : Type 0} where
    delete_key-SameFor : (id : ℤ) (t : CacheTable) → Keeps bad SameFor (delete_key {D = D} gda id t)
    unfolding delete_key modify session_lookup Post
    delete_key-SameFor id t = record {
      at = λ e a. record { found = refl; objects = refl; caching = refl };
    }

    mark-SameFor : (id : ℤ) → Keeps bad SameFor (mark_for_deletion {D = D} gda id)
    unfolding mark_for_deletion modify session_lookup Post
    mark-SameFor id = record { at = λ e a. record { found = refl; objects = refl; caching = refl } }

    drop_key-SameFor :
        (g : Gpointer) → Keeps bad SameFor (modify λ a. record a { key_hash = remove g a.key_hash })
    unfolding modify session_lookup Post
    drop_key-SameFor g = record {
      at = λ e a. record { found = refl; objects = refl; caching = refl };
    }

    ruleset same_rules =
        (keeps_rules, SameFor-frame, delete_key-SameFor, mark-SameFor, drop_key-SameFor)

    delete_key_and_attrs-SameFor :
        (id : ℤ) → Keeps bad SameFor (delete_key_and_attrs {D = D} gda id)
    unfolding delete_key_and_attrs
    delete_key_and_attrs-SameFor id = search same_rules

    uncache_key-SameFor : (k : Key) → Keeps bad SameFor (uncache_key {D = D} gda k)
    unfolding uncache_key
    uncache_key-SameFor k = search (same_rules, delete_key_and_attrs-SameFor)

    key_hash_remove-SameFor : (g : Gpointer) → Keeps bad SameFor (key_hash_remove {D = D} gda g)
    unfolding key_hash_remove
    key_hash_remove-SameFor g = Keeps-bind SameFor-frame _ _ (search same_rules) (elim [
      | none ↦ search same_rules
      | some k ↦ search (same_rules, uncache_key-SameFor) depth 7
    ])

    delete_listed-SameFor : (l : List Key) → Keeps bad SameFor (delete_listed {D = D} gda l)
    unfolding delete_listed
    delete_listed-SameFor [] = Keeps-pure SameFor-frame tt
    delete_listed-SameFor (k ∷ l) =
        Keeps-bind SameFor-frame _ _ (key_hash_remove-SameFor (chars k.url))
          λ _. delete_listed-SameFor l

    key_remove_by_session-SameFor :
        (p : ℕ) → Keeps bad SameFor (key_remove_by_session {D = D} gda p)
    unfolding key_remove_by_session
    key_remove_by_session-SameFor p =
        Keeps-bind SameFor-frame _ _ (Keeps-gets SameFor-frame _) delete_listed-SameFor

    drop_session :
        (current : Str)
        → beq_bytes current sid ≡ false
        → Keeps bad SameFor
            (modify λ a. record a { session_hash = remove (quark current) a.session_hash })
    unfolding modify session_lookup g_direct_equal Post
    drop_session current ne = record {
      at = λ e a. record {
        found = lookup-remove (quark current) (quark sid) a.session_hash ∙ rw ne;
        objects = refl;
        caching = refl;
      };
    }

    remove_other :
        (current : Str)
        → beq_bytes current sid ≡ false
        → Keeps bad SameFor (session_hash_remove {D = D} gda (quark current))
    unfolding session_hash_remove
    remove_other current ne = Keeps-bind SameFor-frame _ _ (Keeps-gets SameFor-frame _) (elim [
      | none ↦ Keeps-pure SameFor-frame tt
      | some p ↦
          Keeps-bind SameFor-frame _ _ (drop_session current ne)
            λ _. key_remove_by_session-SameFor p
    ])

    evict_if_other :
        (current : Str)
        → Keeps bad SameFor (
            if beq_bytes current sid
            then pure tt
            else session_hash_remove {D = D} gda (quark current))
    evict_if_other current = elim (Bool-cases (beq_bytes current sid)) [
      | inl e ↦ rw e (search same_rules)
      | inr e ↦ rw e (remove_other current e)
    ]

    pub evict_session-SameFor : (stm : Stm D W) → Keeps bad SameFor (evict_session gda stm sid)
    unfolding evict_session
    evict_session-SameFor stm =
        Keeps-option SameFor-frame stm.session _ _ (search same_rules)
          λ q. Keeps-bind SameFor-frame _ _ (search same_rules) evict_if_other
