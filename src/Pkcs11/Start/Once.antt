-- ===== src/Pkcs11/Start/Once.antt =====
-- `C_GetFunctionList` starts the API module once.
use skc_library.Base.{ℕ, ◌≡◌, refl, ap, sym, ◌∙◌, Bool, true, Option, some, Str, if◌then◌else◌}
use skc_library.Types.{GError}
use skc_library.Config.{KeyFile, Reading}
use skc_library.Details.{ApimoduleOps}
use skc_library.Effect.{Effect, pure, gets, modify, ◌>>=◌}
use skc_library.Effect.Post.{Post, Post_apply, Post-any, Post-bind, Post-if}
use skc_library.KeyAgent.Database.{Gda}
use skc_library.KeyAgent.Startup.{System}
use skc_library.KeyAgent.Startup.Cache.{Connection}
use skc_library.Pkcs11.Start.{
  FunctionList, Loader, Host, apimodule_init, init_once, c_getfunctionlist, is_sgx,
}

module _ {F D W : Type 0} (loader : Loader F) (load_file : Str → Reading KeyFile) (conf_path : Str)
    (conf_variable : Option Str) (system : System D W) (connection : Connection W) (gda : Gda W)
    (pkgdata : Str) (callbacks : ApimoduleOps D W) where
  read :
      (e : GError) (h : Host F D W)
      → Post (Unit {0}) (λ done _ b. done ≡ b.once) (gets (λ (t : Host F D W). t.once) e h)
  unfolding gets Post
  read e h = refl

  -- The module is marked as started.
  starts :
      (e : GError) (h : Host F D W)
      → Post
          (Unit {0})
          (λ _ _ b. b.once ≡ true)
          (init_once loader load_file conf_path conf_variable system connection gda pkgdata
            callbacks e h)
  unfolding init_once modify pure Post
  starts e h =
      Post-bind _ (λ done _ b. done ≡ b.once) (λ _ _ b. b.once ≡ true) (gets (λ h. h.once)) _ e h
        (read e h)
        λ done e' b same.
          Post-if _ (λ _ _ c. c.once ≡ true) done _ _ e' b (λ t. sym same ∙ t)
            λ _.
              Post-bind _ (λ _ _ _. Unit {0}) (λ _ _ c. c.once ≡ true) _ _ e' b (Post-any _)
                λ rv e'' c _. refl

  -- What is returned is what the static variables hold.
  Held : ℕ × Option (FunctionList F) → GError → Host F D W → Type 0
  Held r e b = (b.once ≡ true) × (r ≡ (b.once_rv, b.func_list))

  returns-Held :
      (e : GError) (h : Host F D W)
      → Post (Unit {0}) Held (
          c_getfunctionlist loader load_file conf_path conf_variable system connection gda pkgdata
            callbacks e h)
  unfolding c_getfunctionlist gets Held Post
  returns-Held e h =
      Post-bind _ (λ _ _ b. b.once ≡ true) Held _ _ e h (starts e h)
        λ _ e' b started. (started, refl)

  again :
      (e : GError) (h : Host F D W)
      → h.once ≡ true
      → c_getfunctionlist loader load_file conf_path conf_variable system connection gda pkgdata
          callbacks e h
        ≡ some ((h.once_rv, h.func_list), e, h)
  unfolding c_getfunctionlist init_once gets pure ◌>>=◌
  again e h started = ap run started
    where
      start : Effect (Host F D W) (Unit {0})
      start = do
        rv ←
            apimodule_init loader load_file conf_path conf_variable system connection gda pkgdata
              callbacks
        modify λ t. record t { once = true; once_rv = rv; at_fork = is_sgx t.mode }

      kept : Effect (Host F D W) (ℕ × Option (FunctionList F))
      kept = gets (λ t. (t.once_rv, t.func_list))

      run : Bool → Option ((ℕ × Option (FunctionList F)) × GError × Host F D W)
      run b = ((if b then pure tt else start) >>= λ _. kept) e h

  -- However often it is called, `C_GetFunctionList` gives what it gave the first time: a call after
  -- another changes nothing, starts nothing and returns the same value and function list.
  pub c_getfunctionlist-again :
      (e e' e'' : GError) (r : ℕ × Option (FunctionList F)) (h h' : Host F D W)
      → c_getfunctionlist loader load_file conf_path conf_variable system connection gda pkgdata
          callbacks e h
        ≡ some (r, e', h')
      → c_getfunctionlist loader load_file conf_path conf_variable system connection gda pkgdata
          callbacks e'' h'
        ≡ some (r, e'', h')
  unfolding Held
  c_getfunctionlist-again e e' e'' r h h' returned =
      let held : Held r e' h' = Post_apply _ Held _ (returns-Held e h) returned in
      again e'' h' held.0 ∙ ap (λ (q : ℕ × Option (FunctionList F)). some (q, e'', h')) (sym held.1)
