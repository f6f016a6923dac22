-- ===== src/KeyAgent/Startup/Settings.antt =====
-- What starting the modules and the cache leaves alone: the settings that were read before.
use skc_library.Base.{◌≡◌, refl, ◌∙◌, Option, none, some, Str}
use skc_library.Types.{GError, ℤ}
use skc_library.Config.{KeyFile}
use skc_library.Effect.Post.{Post, Frame, Keeps}
use skc_library.KeyAgent.Database.{Gda}
use skc_library.KeyAgent.State.{Agent, Action}
use skc_library.KeyAgent.Startup.{
  Startup, System, KeyFormat, call_outside, on_agent, add_stm, add_npm,
}
use skc_library.KeyAgent.Startup.Cache.{
  Connection, name_database, set_cache_sessions, set_cache_keys,
}
use skc_library.KeyAgent.Startup.Kept.{Primitives, load_modules-kept}
use skc_library.KeyAgent.Startup.Init.{load_modules, new_swk_types}

-- The settings that the configuration file gives.
pub record Settings : Type 0 where
  pub config : Option KeyFile
  pub npm_directory : Str
  pub stm_directory : Str
  pub cert : Str
  pub certkey : Str
  pub cacert : Str
  pub keyformat : Option KeyFormat
  pub ssl_verify : ℤ

module _ {D W : Type 0} where
  abbrev pub settings_of : Startup D W → Settings
  settings_of s = record {
    config = s.config;
    npm_directory = s.npm_directory;
    stm_directory = s.stm_directory;
    cert = s.cert;
    certkey = s.certkey;
    cacert = s.cacert;
    keyformat = s.keyformat;
    ssl_verify = s.ssl_verify;
  }

  pub record SameSettings (a b : Startup D W) : Type 0 where
    pub same : settings_of b ≡ settings_of a

  pub SameSettings-frame : Frame SameSettings
  SameSettings-frame = record {
    same = λ a. record { same = refl };
    chain = λ a b c h k. record { same = k.same ∙ h.same };
  }

  on_agent-SameSettings :
      {A : Type 0} (m : Action D W A) → Keeps (Unit {0}) SameSettings (on_agent m)
  unfolding on_agent Post
  on_agent-SameSettings {A} m = record { at = λ e s. go s (m e s.agent) }
    where
      go :
          (s : Startup D W) (r : Option (A × GError × Agent D W))
          → Post {A = A}
              (Unit {0})
              (λ _ _ b. SameSettings s b)
              (elim r as (λ _. Option (A × GError × Startup D W)) [
                | none ↦ none
                | some (x, e', a) ↦ some (x, e', record s { agent = a })
              ])
      go s none = tt
      go s (some (x, e', a)) = record { same = refl }

  module _ (system : System D W) (connection : Connection W) (gda : Gda W) (pkgdata : Str) where
    settings_primitives : Primitives system connection gda pkgdata SameSettings
    unfolding call_outside add_stm add_npm new_swk_types name_database set_cache_sessions
        set_cache_keys Post
    settings_primitives = record {
      frame = SameSettings-frame;
      outside = λ f e s. record { same = refl };
      stm = λ filename name ops s. record { same = refl };
      npm = λ name m s. record { same = refl };
      swk_types = λ s. record { same = refl };
      database = λ s. record { same = refl };
      caching_sessions = λ b s. record { same = refl };
      caching_keys = λ b s. record { same = refl };
      sessions = on_agent-SameSettings _;
      keys = on_agent-SameSettings _;
    }

    pub load_modules-SameSettings :
        Keeps (Unit {0}) SameSettings (load_modules system connection gda pkgdata)
    load_modules-SameSettings = load_modules-kept system connection gda pkgdata settings_primitives
