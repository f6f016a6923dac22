-- ===== src/KeyAgent/WellFormed/Caches.antt =====
-- The local cache (key-agent/src/cache-session.cpp, cache-key.cpp) keeps the tables well formed.
use skc_library.Base.{
  ℕ, zero, suc, bytes_eq, ◌≡◌, refl, Bool, Option, none, some, List, [], ◌∷◌, Str, get_elem?,
  Option-cases, inl, inr,
}
use skc_library.Base.Table.{lookup, insert}
use skc_library.Types.{ℤ}
use skc_library.KeyAgent.Database.{Gda, SessionRow, KeyRow, CacheTable}
use skc_library.KeyAgent.State.{
  Keeps-call, gpointer_eq, quark, Key, Session, Agent, session_at, set_session_at,
}
use skc_library.KeyAgent.Cache.{
  keydata, key_lookup, key_set_cache_id, generate_fake_id, session_set_cache_id,
  get_session_from_model, get_session, session_written, session_stored, cache_session,
  load_session_rows, cache_loadsessions,
}
use skc_library.KeyAgent.Cache.Keys.{
  get_key_from_model, cache_loadkey_attr, create_rsa_key, delete_key, delete_key_and_attrs,
  mark_for_deletion, check_key_row, load_key_rows, delete_all, cache_loadkeys, get_key,
  cache_key_attr, cache_rsa_key_attrs, key_written, key_stored, fake_key_id, key_outcome, cache_key,
  uncache_key,
}
use skc_library.KeyAgent.WellFormed.{
  Preserves, Preserves-frame, Preserves-outside, Preserves-heap, Grows-refl, Grows-set,
  every-insert,
}
use skc_library.Effect.{modify}
use skc_library.Effect.Post.{
  Post, Keeps, keeps_rules, Keeps-bind, Keeps-option, Keeps-list, Keeps-modify, Keeps-fault,
}

module _ {D W : Type 0} where
  generate_fake_id-Preserves : Keeps (Unit {0}) Preserves (generate_fake_id {D = D} {W = W})
  unfolding generate_fake_id Post
  generate_fake_id-Preserves = record {
    at = λ e a. record {
      grows = Grows-refl a.heap;
      kept = λ v. record { sessions = v.sessions; keys = v.keys; stms = v.stms };
    };
  }

  session_set_cache_id-Preserves :
      (p : ℕ) (id : ℤ) → Keeps (Unit {0}) Preserves (session_set_cache_id {D = D} {W = W} p id)
  unfolding session_set_cache_id set_session_at session_at
  session_set_cache_id-Preserves p id =
      Keeps-modify Preserves-frame _ λ a. Preserves-heap a _ (Grows-set a.heap p _ refl)

  -- The key keeps its URL and its session.
  renumbered :
      (url : Str) (key : Key) (id : ℤ) (a : Agent D W)
      → key_lookup a url ≡ some key
      → Preserves a
          (record a { key_hash = insert (quark url) (record key { cache_id = id }) a.key_hash })
  unfolding key_lookup
  renumbered url key id a found = record {
    grows = Grows-refl a.heap;
    kept = λ v. record {
      sessions = v.sessions;
      keys = every-insert _ (quark url) _ a.key_hash (v.keys (quark url) key found) v.keys;
      stms = v.stms;
    };
  }

  key_set_cache_id-Preserves :
      (url : Str) (id : ℤ) → Keeps (Unit {0}) Preserves (key_set_cache_id {D = D} {W = W} url id)
  unfolding key_set_cache_id Post
  key_set_cache_id-Preserves url id = record {
    at = λ e a. elim (Option-cases (key_lookup a url)) [
      | inl h ↦ rw (h, Post) tt
      | inr (key, h) ↦ rw (h, Post) (renumbered url key id a h)
    ];
  }

  module _ (gda : Gda W) where
    mark_for_deletion-Preserves :
        (id : ℤ) → Keeps (Unit {0}) Preserves (mark_for_deletion {D = D} gda id)
    unfolding mark_for_deletion
    mark_for_deletion-Preserves id = Keeps-modify Preserves-frame _ λ a. record {
      grows = Grows-refl a.heap;
      kept = λ v. record { sessions = v.sessions; keys = v.keys; stms = v.stms };
    }

    delete_key-Preserves :
        (id : ℤ) (t : CacheTable) → Keeps (Unit {0}) Preserves (delete_key {D = D} gda id t)
    unfolding delete_key
    delete_key-Preserves id t = Keeps-modify Preserves-frame _ λ a. Preserves-outside a _

    ruleset cache_rules = (
      keeps_rules, Keeps-fault, Keeps-call, Preserves-outside, Preserves-frame,
      generate_fake_id-Preserves, session_set_cache_id-Preserves, key_set_cache_id-Preserves,
      mark_for_deletion-Preserves, delete_key-Preserves,
    )

    get_session_from_model-Preserves :
        (rows : List SessionRow) (i : ℕ)
        → Keeps (Unit {0}) Preserves (get_session_from_model {D = D} gda rows i)
    unfolding get_session_from_model
    get_session_from_model-Preserves rows i =
        Keeps-option Preserves-frame (get_elem? rows i) _ _ (search cache_rules)
          λ r. Keeps-option Preserves-frame r.swk _ _ (search cache_rules) λ swk. search cache_rules

    session_written-Preserves :
        (p : ℕ) (s : Session) → Keeps (Unit {0}) Preserves (session_written {D = D} gda p s)
    unfolding session_written get_session
    session_written-Preserves p s =
        Keeps-bind Preserves-frame _ _
          (Keeps-bind Preserves-frame _ _ (search cache_rules) (elim [
            | none ↦ search cache_rules
            | some rows ↦ get_session_from_model-Preserves rows 0
          ]))
          (elim [ none ↦ search cache_rules | some d ↦ search cache_rules ])

    pub cache_session-Preserves : (p : ℕ) → Keeps (Unit {0}) Preserves (cache_session {D = D} gda p)
    unfolding cache_session session_stored
    cache_session-Preserves p = search (cache_rules, session_written-Preserves) depth 8

    load_session_rows-Preserves :
        (rows : List SessionRow) (i n : ℕ)
        → Keeps (Unit {0}) Preserves (load_session_rows {D = D} gda rows i n)
    unfolding load_session_rows
    load_session_rows-Preserves rows i zero = search cache_rules
    load_session_rows-Preserves rows i (suc n) =
        Keeps-bind Preserves-frame _ _ (get_session_from_model-Preserves rows i)
          (elim [ none ↦ search cache_rules | some d ↦ load_session_rows-Preserves rows (suc i) n ])

    pub cache_loadsessions-Preserves : Keeps (Unit {0}) Preserves (cache_loadsessions {D = D} gda)
    unfolding cache_loadsessions
    cache_loadsessions-Preserves =
        Keeps-bind Preserves-frame _ _ (search cache_rules)
          (elim [ none ↦ search cache_rules | some rows ↦ load_session_rows-Preserves rows 0 _ ])

    delete_key_and_attrs-Preserves :
        (id : ℤ) → Keeps (Unit {0}) Preserves (delete_key_and_attrs {D = D} gda id)
    unfolding delete_key_and_attrs
    delete_key_and_attrs-Preserves id = search cache_rules

    get_key_from_model-Preserves :
        (rows : List KeyRow) (i : ℕ)
        → Keeps (Unit {0}) Preserves (get_key_from_model {D = D} gda rows i)
    unfolding get_key_from_model
    get_key_from_model-Preserves rows i =
        Keeps-option Preserves-frame (get_elem? rows i) _ _ (search cache_rules)
          λ r. search cache_rules

    cache_loadkey_attr-Preserves :
        (id : ℤ) (name : Str) → Keeps (Unit {0}) Preserves (cache_loadkey_attr {D = D} gda id name)
    unfolding cache_loadkey_attr
    cache_loadkey_attr-Preserves id name =
        Keeps-bind Preserves-frame _ _ (search cache_rules) (elim [
          | none ↦ search cache_rules
          | some rows ↦
              Keeps-list Preserves-frame rows _ _ (search cache_rules) λ v r. search cache_rules
        ])

    create_rsa_key-Preserves :
        (row : KeyRow) → Keeps (Unit {0}) Preserves (create_rsa_key {D = D} gda row)
    unfolding create_rsa_key
    create_rsa_key-Preserves row =
        Keeps-bind Preserves-frame _ _ (cache_loadkey_attr-Preserves row.cache_id _)
          (elim [ none ↦ search cache_rules | some v ↦ search cache_rules ])

    check_key_row-Preserves :
        (row : KeyRow) (ret : Bool) → Keeps (Unit {0}) Preserves (check_key_row {D = D} gda row ret)
    unfolding check_key_row
    check_key_row-Preserves row ret = search (cache_rules, create_rsa_key-Preserves) depth 9

    load_key_rows-Preserves :
        (rows : List KeyRow) (i n : ℕ) (ret : Bool)
        → Keeps (Unit {0}) Preserves (load_key_rows {D = D} gda rows i n ret)
    unfolding load_key_rows
    load_key_rows-Preserves rows i zero ret = search cache_rules
    load_key_rows-Preserves rows i (suc n) ret =
        Keeps-bind Preserves-frame _ _ (get_key_from_model-Preserves rows i) λ row.
          Keeps-bind Preserves-frame _ _ (check_key_row-Preserves row ret) λ ret'.
            Keeps-bind Preserves-frame _ _ (search cache_rules)
              λ _. load_key_rows-Preserves rows (suc i) n ret'

    delete_all-Preserves : (ids : List ℤ) → Keeps (Unit {0}) Preserves (delete_all {D = D} gda ids)
    unfolding delete_all
    delete_all-Preserves [] = search cache_rules
    delete_all-Preserves (id ∷ ids) =
        Keeps-bind Preserves-frame _ _ (delete_key_and_attrs-Preserves id)
          λ _. delete_all-Preserves ids

    set_global_model-Preserves :
        (on : Bool)
        → Keeps (Unit {0}) Preserves (modify (λ (a : Agent D W). record a { global_model = on }))
    set_global_model-Preserves on = Keeps-modify Preserves-frame _ λ a. record {
      grows = Grows-refl a.heap;
      kept = λ v. record { sessions = v.sessions; keys = v.keys; stms = v.stms };
    }

    clear_delete_list-Preserves :
        Keeps
          (Unit {0})
          Preserves
          (modify (λ (a : Agent D W). record a { global_delete_list = [] }))
    clear_delete_list-Preserves = Keeps-modify Preserves-frame _ λ a. record {
      grows = Grows-refl a.heap;
      kept = λ v. record { sessions = v.sessions; keys = v.keys; stms = v.stms };
    }

    pub cache_loadkeys-Preserves : Keeps (Unit {0}) Preserves (cache_loadkeys {D = D} gda)
    unfolding cache_loadkeys
    cache_loadkeys-Preserves = Keeps-bind Preserves-frame _ _ (search cache_rules) (elim [
      | none ↦ search cache_rules
      | some rows ↦
          search
            (
              cache_rules, set_global_model-Preserves, clear_delete_list-Preserves,
              load_key_rows-Preserves, delete_all-Preserves,
            )
            depth 9
    ])

    get_key-Preserves : (u : Str) → Keeps (Unit {0}) Preserves (get_key {D = D} gda u)
    unfolding get_key
    get_key-Preserves u = Keeps-bind Preserves-frame _ _ (search cache_rules) (elim [
      | none ↦ search cache_rules
      | some rows ↦ search (cache_rules, get_key_from_model-Preserves)
    ])

    cache_rsa_key_attrs-Preserves :
        (k : Key) (id : ℤ) → Keeps (Unit {0}) Preserves (cache_rsa_key_attrs {D = D} gda k id)
    unfolding cache_rsa_key_attrs cache_key_attr
    cache_rsa_key_attrs-Preserves k id =
        Keeps-option Preserves-frame (lookup keydata k.attributes) _ _ (search cache_rules)
          λ v. search cache_rules

    key_written-Preserves : (k : Key) → Keeps (Unit {0}) Preserves (key_written {D = D} gda k)
    unfolding key_written
    key_written-Preserves k = Keeps-bind Preserves-frame _ _ (get_key-Preserves k.url) (elim [
      | none ↦ search cache_rules
      | some r ↦
          search (cache_rules, cache_rsa_key_attrs-Preserves, delete_key_and_attrs-Preserves) depth
            8
    ])

    key_stored-Preserves : (k : Key) → Keeps (Unit {0}) Preserves (key_stored {D = D} gda k)
    unfolding key_stored
    key_stored-Preserves k =
        Keeps-option Preserves-frame k.session _ _ (search cache_rules)
          λ p. search (cache_rules, key_written-Preserves) depth 8

    key_outcome-Preserves :
        (on : Bool) (k : Option Key) → Keeps (Unit {0}) Preserves (key_outcome {D = D} gda on k)
    unfolding key_outcome fake_key_id
    key_outcome-Preserves on none = search cache_rules
    key_outcome-Preserves on (some k) = search (cache_rules, key_stored-Preserves)

    pub cache_key-Preserves : (u : Str) → Keeps (Unit {0}) Preserves (cache_key {D = D} gda u)
    unfolding cache_key
    cache_key-Preserves u = search (cache_rules, key_outcome-Preserves) depth 8

    pub uncache_key-Preserves : (k : Key) → Keeps (Unit {0}) Preserves (uncache_key {D = D} gda k)
    unfolding uncache_key
    uncache_key-Preserves k = search (cache_rules, delete_key_and_attrs-Preserves) depth 8
