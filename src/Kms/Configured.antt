-- ===== src/Kms/Configured.antt =====
-- What npm_init leaves behind, when it succeeds and when it fails.
use skc_library.Base.{◌≡◌, refl, subst, none, some, Str, codes}
use skc_library.Types.{GError, Error, ℤ}
use skc_library.Config.{KeyFile, Reading, value}
use skc_library.Config.Reads.{openfile-cases, get_string-cases}
use skc_library.KeyAgent.Startup.{g_string_new}
use skc_library.Kms.Wire.{kms_prefix_token}
use skc_library.Kms.Init.{
  GString, null, held, freed, NpmSettings, Answer, k_string_free, npm_finalize, core,
  finalize_and_fail, take_server, take_config, filename, npm_init,
}

-- The configuration was read, and the server it names is held.
pub record Configured (load : Str → Reading KeyFile) (file : Str) (s : NpmSettings) : Type 0 where
  pub kf : KeyFile
  pub server : Str
  pub loaded : load file ≡ value kf
  pub named : kf.text_of core (codes "server") ≡ value server
  pub url : s.server_url ≡ held server
  pub configfile : s.configfile ≡ held file

-- What is claimed of an answer: with a label it is configured, and without one a second release of
-- the variables is an error.
Sound : (NpmSettings → Type 0) → Answer → Type 0
Sound R none = Unit
Sound R (some (some label, e, s)) = (label ≡ kms_prefix_token) × (e ≡ none) × R s
Sound R (some (none, e, s)) = npm_finalize s ≡ none

-- The configuration's name is given back, and the pointer to it kept.
fail-Sound :
    (R : NpmSettings → Type 0) (x : Error) (file : Str) (url : GString) (debug : ℤ)
    → Sound R
        (finalize_and_fail x (record { configfile = held file; server_url = url; debug = debug }))
unfolding finalize_and_fail npm_finalize k_string_free Sound
fail-Sound R x file null debug = refl
fail-Sound R x file (held s) debug = refl
fail-Sound R x file freed debug = tt

module _ (build_filename : Str → Str → Str) (load : Str → Reading KeyFile) where
  init-Sound :
      (directory : Str) (s : NpmSettings)
      → Sound
          (Configured load (filename build_filename load directory))
          (npm_init build_filename load (some directory) none s)
  unfolding npm_init take_config take_server g_string_new Sound
  init-Sound directory s =
      openfile-cases (λ r. Sound claim (take_config r named)) load file
        (λ kf loaded.
          get_string-cases (λ r. Sound claim (take_server (some kf) r named)) kf core
            (codes "server")
            (λ server url. (
              refl,
              refl,
              record {
                kf = kf;
                server = server;
                loaded = loaded;
                named = url;
                url = refl;
                configfile = refl;
              },
            ))
            λ x _. fail-Sound claim x file s.server_url s.debug)
        λ x _. fail-Sound claim x file s.server_url s.debug
    where
      file : Str
      file = filename build_filename load directory

      claim : NpmSettings → Type 0
      claim = Configured load file

      named : NpmSettings
      named = record s { configfile = held file }

  -- If `npm_init` reports a label, it is the one that key URLs start with, and the configuration of
  -- the directory was loaded and names the server, which is held.
  pub npm_init-Configured :
      (directory label : Str) (e : GError) (s s' : NpmSettings)
      → npm_init build_filename load (some directory) none s ≡ some (some label, e, s')
      → (label ≡ kms_prefix_token) × Configured load (filename build_filename load directory) s'
  unfolding Sound
  npm_init-Configured directory label e s s' returned =
      let h = subst (Sound _) returned (init-Sound directory s) in (h.0, h.2)

  -- If `npm_init` fails, it has given its strings back and keeps the pointers: npm_finalize after it
  -- gives the name of the configuration back again, which is an error.
  pub npm_finalize-npm_init :
      (directory : Str) (e : GError) (s s' : NpmSettings)
      → npm_init build_filename load (some directory) none s ≡ some (none, e, s')
      → npm_finalize s' ≡ none
  unfolding Sound
  npm_finalize-npm_init directory e s s' returned =
      subst (Sound _) returned (init-Sound directory s)
