-- ===== src/KeyAgent/Startup/Kept.antt =====
-- A relation between states that each primitive of the start keeps is kept while the modules and
-- the cache are started (key-agent/src/intf.cpp, cache-init.cpp).
use skc_library.Base.{Bool, false, none, some, List, [], ◌∷◌, Str, ◌||◌}
use skc_library.Types.{GError, Call, ℤ, KeyAgentErrors, invalid_conf_value}
use skc_library.Effect.{Effect, pure, modify}
use skc_library.Effect.Post.{
  Post, Frame, Keeps, keeps_rules, Keeps-pure, Keeps-bind, Keeps-option, Keeps-list, Keeps-modify,
  Keeps-fault, Keeps-if,
}
use skc_library.KeyAgent.Database.{Gda}
use skc_library.KeyAgent.Cache.{cache_loadsessions}
use skc_library.KeyAgent.Cache.Keys.{cache_loadkeys}
use skc_library.KeyAgent.State.{StmOps}
use skc_library.KeyAgent.Startup.{
  Startup, System, StmModule, NpmModule, Opened, not_opened, lacks_symbol, opened, on_error,
  call_outside, on_agent, checked, report, add_stm, start_stm, initialize_stm, initialize_stms,
  add_npm, start_npm, initialize_npm, initialize_npms, handle_wildcards,
}
use skc_library.KeyAgent.Startup.Cache.{
  Connection, run_sql_non_select, run_all, create_cache_tables, open_cache_connection,
  name_database, make_directory, restore, open_database, cache_init, set_cache_sessions,
  set_cache_keys,
}
use skc_library.KeyAgent.Startup.Init.{load_stms, load_modules, refuse, new_swk_types}

-- What a relation has to allow.
module _ {D W : Type 0} (system : System D W) (connection : Connection W) (gda : Gda W)
    (pkgdata : Str) where
  pub record Primitives (R : Startup D W → Startup D W → Type 0) : Type 1 where
    pub frame : Frame R
    pub outside :
        {A : Type 0} (f : Call W A) (e : GError) (s : Startup D W)
        → Post (Unit {0}) (λ _ _ b. R s b) (call_outside f e s)
    pub stm :
        (filename name : Str) (ops : StmOps D W) (s : Startup D W)
        → R s (add_stm system filename name ops s)
    pub npm : (name : Str) (m : NpmModule D W) (s : Startup D W) → R s (add_npm system name m s)
    pub swk_types : (s : Startup D W) → R s (new_swk_types s)
    pub database : (s : Startup D W) → R s (name_database connection system pkgdata s)
    pub caching_sessions : (b : ℤ) (s : Startup D W) → R s (set_cache_sessions connection b s)
    pub caching_keys : (b : ℤ) (s : Startup D W) → R s (set_cache_keys connection b s)
    pub sessions : Keeps (Unit {0}) R (on_agent {D = D} (cache_loadsessions gda))
    pub keys : Keeps (Unit {0}) R (on_agent {D = D} (cache_loadkeys gda))

module _ {D W : Type 0} (system : System D W) (connection : Connection W) (gda : Gda W)
    (pkgdata : Str) {R : Startup D W → Startup D W → Type 0}
    (P : Primitives system connection gda pkgdata R) where
  frame : Frame R
  frame = P.frame

  on_error-kept :
      {A : Type 0} (f : GError → A × GError) → Keeps (Unit {0}) R (on_error {D = D} {W = W} f)
  unfolding on_error Post
  on_error-kept f = record { at = λ e a. P.frame.same a }

  call_outside-kept : {A : Type 0} (f : Call W A) → Keeps (Unit {0}) R (call_outside {D = D} f)
  call_outside-kept f = record { at = λ e a. P.outside f e a }

  loadsessions-kept : Keeps (Unit {0}) R (on_agent {D = D} (cache_loadsessions gda))
  loadsessions-kept = P.sessions

  loadkeys-kept : Keeps (Unit {0}) R (on_agent {D = D} (cache_loadkeys gda))
  loadkeys-kept = P.keys

  ruleset kept_rules = (
    keeps_rules, Keeps-fault, frame, on_error-kept, call_outside-kept, loadsessions-kept,
    loadkeys-kept,
  )

  modify-kept :
      (f : Startup D W → Startup D W)
      → ((s : Startup D W) → R s (f s))
      → Keeps (Unit {0}) R (modify f)
  modify-kept f h = Keeps-modify frame f h

  checked-kept :
      {A : Type 0} (m : Effect (Startup D W) A) (k : A → Effect (Startup D W) Bool)
      → Keeps (Unit {0}) R m
      → ((x : A) → Keeps (Unit {0}) R (k x))
      → Keeps (Unit {0}) R (checked m k)
  unfolding checked
  checked-kept m k km kk = Keeps-bind frame _ _ km λ x.
      Keeps-bind frame _ _ (on_error-kept _)
        λ failed. Keeps-if frame failed _ _ (Keeps-pure frame false) (kk x)

  report-kept : (e : GError) → Keeps (Unit {0}) R (report system e)
  unfolding report
  report-kept none = search kept_rules
  report-kept (some x) = search kept_rules

  start_stm-kept :
      (filename : Str) (m : StmModule D W) → Keeps (Unit {0}) R (start_stm system filename m)
  unfolding start_stm
  start_stm-kept filename m = Keeps-bind frame _ _ (search kept_rules) λ directory.
      Keeps-bind frame _ _ (search kept_rules) λ started.
        Keeps-option frame started.0 _ _ (report-kept started.1)
          λ name. modify-kept _ (P.stm filename name m.stm_functions)

  start_npm-kept : (m : NpmModule D W) → Keeps (Unit {0}) R (start_npm system m)
  unfolding start_npm
  start_npm-kept m = Keeps-bind frame _ _ (search kept_rules) λ directory.
      Keeps-bind frame _ _ (search kept_rules) λ started.
        Keeps-option frame started.0 _ _ (report-kept started.1)
          λ name. modify-kept _ (P.npm name m)

  initialize_stms-kept : (l : List Str) → Keeps (Unit {0}) R (initialize_stms system l)
  unfolding initialize_stms initialize_stm
  initialize_stms-kept [] = search kept_rules
  initialize_stms-kept (f ∷ l) =
      Keeps-bind frame _ _ (go (system.open_stm f)) λ _. initialize_stms-kept l
    where
      go :
          (o : Opened (StmModule D W))
          → Keeps (Unit {0}) R (elim o as (λ _. Effect (Startup D W) (Unit {0})) [
            | not_opened ↦ pure tt
            | lacks_symbol ↦ pure tt
            | opened m ↦ start_stm system f m
          ])
      go not_opened = search kept_rules
      go lacks_symbol = search kept_rules
      go (opened m) = start_stm-kept f m

  initialize_npms-kept : (l : List Str) → Keeps (Unit {0}) R (initialize_npms system l)
  unfolding initialize_npms initialize_npm
  initialize_npms-kept [] = search kept_rules
  initialize_npms-kept (f ∷ l) =
      Keeps-bind frame _ _ (go (system.open_npm f)) λ _. initialize_npms-kept l
    where
      go :
          (o : Opened (NpmModule D W))
          → Keeps (Unit {0}) R (elim o as (λ _. Effect (Startup D W) (Unit {0})) [
            | not_opened ↦ pure tt
            | lacks_symbol ↦ pure tt
            | opened m ↦ start_npm system m
          ])
      go not_opened = search kept_rules
      go lacks_symbol = search kept_rules
      go (opened m) = start_npm-kept m

  run_all-kept : (l : List Str) → Keeps (Unit {0}) R (run_all {D = D} connection l)
  unfolding run_all run_sql_non_select
  run_all-kept [] = search kept_rules
  run_all-kept (sql ∷ l) =
      Keeps-bind frame _ _ (search kept_rules depth 8)
        λ done. Keeps-if frame done _ _ (run_all-kept l) (search kept_rules)

  make_directory-kept : Keeps (Unit {0}) R (make_directory connection system pkgdata)
  unfolding make_directory
  make_directory-kept = Keeps-bind frame _ _ (search kept_rules) λ directory.
      Keeps-bind frame _ _ (search kept_rules)
        λ failure. Keeps-option frame failure _ _ (search kept_rules) λ x. search kept_rules

  restore-kept : Keeps (Unit {0}) R (restore connection system pkgdata gda)
  unfolding restore
  restore-kept = Keeps-bind frame _ _ (search kept_rules) λ sessions.
      Keeps-bind frame _ _ (search kept_rules) λ keys.
        Keeps-bind frame _ _ (search kept_rules)
          λ loaded. Keeps-if frame loaded _ _ (search kept_rules depth 8) (search kept_rules)

  open_database-kept : Keeps (Unit {0}) R (open_database connection system pkgdata gda)
  unfolding open_database create_cache_tables open_cache_connection
  open_database-kept = Keeps-bind frame _ _ (modify-kept _ P.database) λ _.
      Keeps-bind frame _ _ make_directory-kept λ made.
        Keeps-if frame made _ _
          (Keeps-bind frame _ _ (search kept_rules) λ connected.
            Keeps-if frame connected _ _
              (Keeps-bind frame _ _ (run_all-kept _)
                λ created. Keeps-if frame created _ _ restore-kept (search kept_rules))
              (search kept_rules))
          (search kept_rules)

  cache_init-kept : Keeps (Unit {0}) R (cache_init connection system pkgdata gda)
  unfolding cache_init
  cache_init-kept = Keeps-bind frame _ _ (search kept_rules) λ config.
      checked-kept _ _
        (Keeps-bind frame _ _ (search kept_rules) λ b. modify-kept _ (P.caching_sessions b))
        λ _.
          checked-kept _ _
            (Keeps-bind frame _ _ (search kept_rules) λ b. modify-kept _ (P.caching_keys b))
            λ _. Keeps-bind frame _ _ (search kept_rules) λ s.
              Keeps-if frame (s.agent.cache_sessions || s.agent.cache_keys) _ _ open_database-kept
                (search kept_rules)

  refuse-kept : (x : KeyAgentErrors) → Keeps (Unit {0}) R (refuse {D = D} {W = W} x)
  unfolding refuse
  refuse-kept x = search kept_rules

  load_stms-kept : Keeps (Unit {0}) R (load_stms system connection gda pkgdata)
  unfolding load_stms new_swk_types
  load_stms-kept = Keeps-bind frame _ _ (search kept_rules) λ directory.
      Keeps-list frame (handle_wildcards system _) _ _ (refuse-kept invalid_conf_value) λ m l.
        Keeps-bind frame _ _ (modify-kept _ P.swk_types)
          λ _. Keeps-bind frame _ _ (initialize_stms-kept (m ∷ l)) λ _. cache_init-kept

  pub load_modules-kept : Keeps (Unit {0}) R (load_modules system connection gda pkgdata)
  unfolding load_modules
  load_modules-kept = Keeps-bind frame _ _ (search kept_rules) λ directory.
      Keeps-list frame (handle_wildcards system _) _ _ (refuse-kept invalid_conf_value)
        λ m l. Keeps-bind frame _ _ (initialize_npms-kept (m ∷ l)) λ _. load_stms-kept
