-- ===== src/Pkcs11/Start/Loads.antt =====
-- What the loading of the Cryptoki module comes to
-- (api-module/pkcs11/src/pkcs11-apimodule.cpp).
use skc_library.Base.{
  ℕ, ◌≡◌, ◌≢◌, refl, true, ◌==◌, Option, none, some, Str, arith, is_some, nat_eq,
}
use skc_library.Base.Table.{lookup, insert}
use skc_library.Types.{GError}
use skc_library.Effect.{pure, gets, modify, ◌>>=◌}
use skc_library.Effect.Post.{Post, Post-bind, Post-if, Post-option}
use skc_library.KeyAgent.State.{gpointer_eq}
use skc_library.Pkcs11.Cryptoki.{ckr_ok, ckr_general_error}
use skc_library.Pkcs11.Start.{
  FunctionList, Loader, Host, apimodule_unload_module, give_up, take_module, take_entries,
  apimodule_load_module,
}

module _ {F D W : Type 0} where
  module _ (loader : Loader F) where
    -- A module that is loaded gives a function list; the mode stays.
    abbrev pub Loaded : Host F D W → ℕ × Option (FunctionList F) → GError → Host F D W → Type 0
    Loaded h r e b = (r.0 ≡ ckr_ok → is_some r.1 ≡ true) × (b.mode ≡ h.mode)

    unload-mode :
        (mod' : ℕ) (e : GError) (h : Host F D W)
        → Post (Unit {0}) (λ _ _ b. b.mode ≡ h.mode) (apimodule_unload_module loader mod' e h)
    unfolding apimodule_unload_module gets modify pure Post ◌>>=◌
    unload-mode mod' e h =
        Post-option _ (λ _ _ b. b.mode ≡ h.mode) (lookup mod' h.module_hash) _ _ e h (λ _. refl)
          λ m _. refl

    give_up-Loaded :
        (mod' rv : ℕ) (e : GError) (h : Host F D W)
        → rv ≢ ckr_ok
        → Post (Unit {0}) (Loaded h) (give_up loader mod' rv e h)
    unfolding give_up pure Post Loaded
    give_up-Loaded mod' rv e h bad =
        Post-bind _ (λ _ _ b. b.mode ≡ h.mode) (Loaded h) _ _ e h (unload-mode mod' e h)
          λ _ e' b kept. (λ wrong. absurd (bad wrong), kept)

    take_module-Loaded :
        (mod' : ℕ) (o : Option (ℕ × F)) (e : GError) (h : Host F D W)
        → Post (Unit {0}) (Loaded h) (take_module loader mod' o e h)
    unfolding take_module take_entries modify pure Post Loaded ◌>>=◌
    take_module-Loaded mod' none e h = give_up-Loaded mod' ckr_general_error e h (omega arith)
    take_module-Loaded mod' (some (rv, entries)) e h =
        Post-if _ (Loaded h) (rv == ckr_ok) _ _ e h (λ _. (λ _. refl, refl))
          λ bad. give_up-Loaded mod' rv e h (ground (arith, bad))

    pub load_module-Loaded :
        (name : Str) (e : GError) (h : Host F D W)
        → Post (Unit {0}) (Loaded h) (apimodule_load_module loader name e h)
    unfolding apimodule_load_module modify pure Post Loaded ◌>>=◌
    load_module-Loaded name e h =
        Post-option _ (Loaded h) (loader.module_open name) _ _ e h
          (λ _. (λ wrong. absurd (ground (arith, wrong)), refl))
          λ mod' _.
            take_module-Loaded mod' (loader.get_function_list mod') e
              (record h { module_hash = insert mod' mod' h.module_hash })
