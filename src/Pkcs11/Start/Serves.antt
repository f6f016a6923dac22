-- ===== src/Pkcs11/Start/Serves.antt =====
-- The STM that serves the API module once it is registered (key-agent/src/intf.cpp).
use skc_library.Base.{
  ◌≡◌, refl, ◌∙◌, Bool, true, not, Option, none, some, Str, arith, is_some, ≟-refl, nat_eq,
}
use skc_library.Base.Table.{lookup-insert}
use skc_library.Types.{GError}
use skc_library.Details.{ApimoduleOps}
use skc_library.Effect.{pure, gets, modify, ◌>>=◌}
use skc_library.Effect.Post.{Post, Post-option}
use skc_library.KeyAgent.State.{gpointer_eq, quark, Agent, Stm}
use skc_library.KeyAgent.Stm.{stm_get_by_name, put_stm, stm_apimodule_enable}
use skc_library.KeyAgent.Load.{apimodule_register}
use skc_library.KeyAgent.Database.{Gda}
use skc_library.KeyAgent.Startup.{System}
use skc_library.KeyAgent.Startup.Cache.{Connection}
use skc_library.KeyAgent.Startup.Init.{Started, start_once, answered, keyagent_init}

module _ {D W : Type 0} where
  -- The STM of this label serves the API module, through these callbacks.
  pub record Serves (label : Str) (callbacks : ApimoduleOps D W) (a : Agent D W) : Type 0 where
    pub stm : Stm D W
    pub found : stm_get_by_name a label ≡ some stm
    pub serves : stm.apimodule ≡ true
    pub enabled : a.apimodule_enabled ≡ true
    pub ops : a.apimodule_ops ≡ callbacks

  abbrev pub Registered : Str → ApimoduleOps D W → Bool → GError → Agent D W → Type 0
  Registered label callbacks x e b = (e ≡ none) × (x ≡ true → Serves label callbacks b)

  enable-Registered :
      (label : Str) (a : Agent D W)
      → Post (Unit {0}) (Registered label a.apimodule_ops) (stm_apimodule_enable label none a)
  unfolding stm_apimodule_enable gets modify pure Registered stm_get_by_name put_stm Post ◌>>=◌
  enable-Registered label a =
      Post-option _ (Registered label a.apimodule_ops) (stm_get_by_name a label) _ _ none a
        (λ _. (refl, λ wrong. absurd (ground (arith, wrong))))
        λ stm _. (
          refl,
          λ _. record {
            stm = record stm { apimodule = true };
            found =
                lookup-insert (quark label) (quark label) (record stm { apimodule = true })
                  a.stm_hash
                ∙ rw (≟-refl (quark label)) refl;
            serves = refl;
            enabled = refl;
            ops = refl;
          },
        )

  pub register-Registered :
      (label : Str) (callbacks : ApimoduleOps D W) (a : Agent D W)
      → Post
          (Unit {0})
          (Registered label callbacks)
          (apimodule_register (some label) callbacks none a)
  unfolding apimodule_register modify ◌>>=◌
  register-Registered label callbacks a =
      enable-Registered label (record a { apimodule_ops = callbacks })

  -- TRUE says that no error is kept.
  pub init-clean :
      (system : System D W) (connection : Connection W) (gda : Gda W) (pkgdata : Str)
      (filename : Option Str) (e : GError) (st : Started D W)
      → Post
          (Unit {0})
          (λ x _ k. x ≡ true → k.error ≡ none)
          (keyagent_init system connection gda pkgdata filename e st)
  unfolding keyagent_init answered Post
  init-clean system connection gda pkgdata filename e st =
      go (start_once system connection gda pkgdata filename st)
    where
      clean : (x : GError) → not (is_some x) ≡ true → x ≡ none
      clean none h = refl
      clean (some x) h = absurd (ground (arith, h))

      go :
          (r : Option (Started D W))
          → Post (Unit {0}) (λ x _ k. x ≡ true → k.error ≡ none) (answered e r)
      go none = tt
      go (some k) = clean k.error
