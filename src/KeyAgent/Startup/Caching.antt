-- ===== src/KeyAgent/Startup/Caching.antt =====
-- What the switch of the key cache makes of `__keyagent_cache_init` (key-agent/src/cache-init.cpp).
use skc_library.Base.{
  ◌≡◌, refl, ap, sym, ◌∙◌, Bool, true, false, not, ◌||◌, none, some, List, [], ◌∷◌, Str, codes,
  if◌then◌else◌,
}
use skc_library.Types.{GError, ℤ, Call}
use skc_library.Config.{KeyFile, value, of_bool, key_config_get_boolean}
use skc_library.Effect.{Effect, pure, gets, modify, ◌>>=◌}
use skc_library.Effect.Post.{
  Post, Post_apply, Post-bind, Post-if, Post-any, Frame, Keeps, keeps_rules, Keeps-bind, Keeps-if,
  Keeps-option, Keeps-modify,
}
use skc_library.KeyAgent.Database.{Gda}
use skc_library.KeyAgent.Startup.{System, Startup, on_error, call_outside}
use skc_library.KeyAgent.Startup.Cache.{
  Connection, run_sql_non_select, run_all, create_cache_tables, open_cache_connection,
  name_database, make_directory, restore, open_database, cache_init, set_cache_sessions,
  set_cache_keys,
}
use skc_library.Config.Reads.{boolean_of_reading}
use skc_library.KeyAgent.Startup.Reads.{checked-clean}

module _ {D W : Type 0} where
  -- The switches stay as they are.
  pub record SameSwitches (a b : Startup D W) : Type 0 where
    pub keys : b.agent.cache_keys ≡ a.agent.cache_keys

  SameSwitches-frame : Frame SameSwitches
  SameSwitches-frame = record {
    same = λ a. record { keys = refl };
    chain = λ a b c h k. record { keys = k.keys ∙ h.keys };
  }

  call_outside-SameSwitches :
      {A : Type 0} (f : Call W A) → Keeps (Unit {0}) SameSwitches (call_outside {D = D} f)
  unfolding call_outside Post
  call_outside-SameSwitches f = record { at = λ e a. record { keys = refl } }

  ruleset switch_rules = (keeps_rules, SameSwitches-frame, call_outside-SameSwitches)

  module _ (system : System D W) (connection : Connection W) (gda : Gda W) (pkgdata : Str) where
    run_all-SameSwitches :
        (l : List Str) → Keeps (Unit {0}) SameSwitches (run_all {D = D} connection l)
    unfolding run_all run_sql_non_select
    run_all-SameSwitches [] = search switch_rules
    run_all-SameSwitches (sql ∷ l) =
        Keeps-bind SameSwitches-frame _ _ (search switch_rules depth 8) λ done.
          Keeps-if SameSwitches-frame done _ _ (run_all-SameSwitches l) (search switch_rules)

    make_directory-SameSwitches :
        Keeps (Unit {0}) SameSwitches (make_directory connection system pkgdata)
    unfolding make_directory
    make_directory-SameSwitches =
        Keeps-bind SameSwitches-frame _ _ (search switch_rules) λ directory.
          Keeps-bind SameSwitches-frame _ _ (search switch_rules) λ failure.
            Keeps-option SameSwitches-frame failure _ _ (search switch_rules)
              λ x. search switch_rules

    -- FALSE is the result.
    abbrev pub Fails : Bool → GError → Startup D W → Type 0
    Fails x e b = x ≡ false

    -- A read of the state, and then the rest.
    gets-Fails :
        {A : Type 0} (f : Startup D W → A) (k : A → Effect (Startup D W) Bool) (e : GError)
        (s : Startup D W)
        → Post (Unit {0}) Fails (k (f s) e s)
        → Post (Unit {0}) Fails ((gets f >>= k) e s)
    unfolding gets ◌>>=◌
    gets-Fails f k e s h = h

    restore-Fails :
        (e : GError) (s : Startup D W)
        → s.agent.cache_keys ≡ true
        → Post (Unit {0}) Fails (restore connection system pkgdata gda e s)
    unfolding restore pure Post
    restore-Fails e s on = gets-Fails _ _ e s (
        gets-Fails _ _ e s (
          Post-bind _ (λ _ _ _. Unit {0}) Fails _ _ e s (Post-any _)
            λ loaded e' b _.
              Post-if _ Fails loaded _ _ e' b
                (λ _.
                  Post-bind _ (λ _ _ _. Unit {0}) Fails _ _ e' b (Post-any _)
                    λ restored e'' c _.
                      Post-if _ Fails restored _ _ e'' c (λ _. ap not on) (λ _. refl))
                (λ _. refl)))

    -- A step that keeps the switches, and then the rest.
    then_Fails :
        {A : Type 0} (m : Effect (Startup D W) A) (f : A → Effect (Startup D W) Bool) (e : GError)
        (s : Startup D W)
        → Keeps (Unit {0}) SameSwitches m
        → s.agent.cache_keys ≡ true
        → ((x : A) (e' : GError) (b : Startup D W)
            → b.agent.cache_keys ≡ true
            → Post (Unit {0}) Fails (f x e' b))
        → Post (Unit {0}) Fails ((m >>= f) e s)
    then_Fails m f e s keeps on next =
        Post-bind _ (λ _ _ b. SameSwitches s b) Fails m f e s (keeps.at e s)
          λ x e' b h. next x e' b (h.keys ∙ on)

    open_database-Fails :
        (e : GError) (s : Startup D W)
        → s.agent.cache_keys ≡ true
        → Post (Unit {0}) Fails (open_database connection system pkgdata gda e s)
    unfolding open_database create_cache_tables open_cache_connection name_database pure Post
    open_database-Fails e s on =
        then_Fails _ _ e s (Keeps-modify SameSwitches-frame _ λ a. record { keys = refl }) on
          λ _ e1 s1 on1. then_Fails _ _ e1 s1 make_directory-SameSwitches on1 λ made e2 s2 on2.
            Post-if _ Fails made _ _ e2 s2
              (λ _. then_Fails _ _ e2 s2 (search switch_rules) on2 λ connected e3 s3 on3.
                Post-if _ Fails connected _ _ e3 s3
                  (λ _. then_Fails _ _ e3 s3 (run_all-SameSwitches _) on3 λ created e4 s4 on4.
                    Post-if _ Fails created _ _ e4 s4 (λ _. restore-Fails e4 s4 on4) (λ _. refl))
                  (λ _. refl))
              (λ _. refl)

    -- The state once both switches are read.
    switched : Bool → Bool → Startup D W → Startup D W
    unfolding set_cache_sessions set_cache_keys
    switched sessions keys s =
        set_cache_keys connection (of_bool keys)
          (set_cache_sessions connection (of_bool sessions) s)

    set_switch :
        (kf : KeyFile) (key : Str) (b : Bool) (put : ℤ → Startup D W → Startup D W)
        (s : Startup D W)
        → s.config ≡ some kf
        → kf.boolean_of (codes "cache") key ≡ value b
        → (on_error (key_config_get_boolean s.config (codes "cache") key) >>= λ v. modify (put v))
            none s
          ≡ some (tt, none, put (of_bool b) s)
    unfolding on_error modify ◌>>=◌
    set_switch kf key b put s configured h =
        ap (λ (r : ℤ × GError). some (tt, r.1, put r.0 s))
          (boolean_of_reading kf (codes "cache") key s.config (value b) configured h)

    decide : Effect (Startup D W) Bool
    decide = do
      s ← gets (λ s. s)
      if s.agent.cache_sessions || s.agent.cache_keys
          then open_database connection system pkgdata gda
          else pure true

    cache_init-decide :
        (kf : KeyFile) (sessions keys : Bool) (s : Startup D W)
        → s.config ≡ some kf
        → kf.boolean_of (codes "cache") (codes "cache_sessions") ≡ value sessions
        → kf.boolean_of (codes "cache") (codes "cache_keys") ≡ value keys
        → cache_init connection system pkgdata gda none s ≡ decide none (switched sessions keys s)
    unfolding cache_init decide switched set_cache_sessions gets ◌>>=◌
    cache_init-decide kf sessions keys s configured h k =
        checked-clean _ _ tt s (set_cache_sessions connection (of_bool sessions) s)
          (set_switch kf (codes "cache_sessions") sessions _ s configured h)
        ∙ checked-clean _ _ tt (set_cache_sessions connection (of_bool sessions) s)
            (switched sessions keys s) (set_switch kf (codes "cache_keys") keys _ _ configured k)

    decide-Fails :
        (sessions : Bool) (s : Startup D W)
        → Post (Unit {0}) Fails (decide none (switched sessions true s))
    unfolding decide switched set_cache_sessions set_cache_keys
    decide-Fails true s = gets-Fails _ _ none _ (open_database-Fails none _ refl)
    decide-Fails false s = gets-Fails _ _ none _ (open_database-Fails none _ refl)

    -- With the cache of keys switched on, `__keyagent_cache_init` returns FALSE, also where the
    -- database was opened and every session and key was restored.
    pub cache_init-false :
        (kf : KeyFile) (sessions : Bool) (s s' : Startup D W) (x : Bool) (e : GError)
        → s.config ≡ some kf
        → kf.boolean_of (codes "cache") (codes "cache_sessions") ≡ value sessions
        → kf.boolean_of (codes "cache") (codes "cache_keys") ≡ value true
        → cache_init connection system pkgdata gda none s ≡ some (x, e, s')
        → x ≡ false
    cache_init-false kf sessions s s' x e configured h k returned =
        Post_apply _ Fails _ (decide-Fails sessions s)
          (sym (cache_init-decide kf sessions true s configured h k) ∙ returned)
