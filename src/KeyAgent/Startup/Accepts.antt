-- ===== src/KeyAgent/Startup/Accepts.antt =====
-- What a configuration is like with which the key agent starts.
use skc_library.Base.{
  ◌≡◌, refl, sym, ap, subst, ◌∙◌, Bool, true, false, Option, none, some, Str, arith, codes,
  if◌then◌else◌, ◌⊎◌,
}
use skc_library.Types.{GError, invalid_conf_value}
use skc_library.Config.{value, KeyFile, of_bool, key_config_openfile}
use skc_library.KeyAgent.Startup.Reads.{Clean, refused, after_reading, read_setting, read_text}
use skc_library.Effect.{gets, modify, ◌>>=◌}
use skc_library.Effect.Post.{Post}
use skc_library.KeyAgent.Database.{Gda}
use skc_library.KeyAgent.Startup.{System, Startup, KeyFormat, pkcs11, on_error}
use skc_library.KeyAgent.Startup.Cache.{Connection}
use skc_library.KeyAgent.Startup.Init.{
  Started, format_of, core, credentials, lacks_file, read_credentials, read_core, do_keyagent_init,
  start_once, started_from, answered, keyagent_init,
}
use skc_library.KeyAgent.WellFormed.{IsWellFormed}
use skc_library.KeyAgent.Startup.Settings.{Settings, settings_of}
use skc_library.KeyAgent.Startup.Files.{format_name, format_of-name, read_format, files_there}

module _ {D W : Type 0} (system : System D W) (connection : Connection W) (gda : Gda W)
    (pkgdata : Str) where
  -- What the settings say of the configuration file and of the file system.
  pub record Accepted (filename : Str) (b : Startup D W) : Type 0 where
    pub kf : KeyFile
    pub format : Str
    pub kind : KeyFormat
    pub verify : Bool
    pub loaded : system.load_file filename ≡ value kf
    pub npm_directory : kf.text_of core (codes "npm-directory") ≡ value b.npm_directory
    pub stm_directory : kf.text_of core (codes "stm-directory") ≡ value b.stm_directory
    pub cert : kf.text_of credentials (codes "certificate") ≡ value b.cert
    pub certkey : kf.text_of credentials (codes "certificate_key") ≡ value b.certkey
    pub cacert : kf.text_of credentials (codes "ca_certificate") ≡ value b.cacert
    pub keyformat : kf.text_of credentials (codes "keyformat") ≡ value format
    pub known : format ≡ format_name kind
    pub held : b.keyformat ≡ some kind
    pub cert_file : system.exists b.cert ≡ true
    pub cacert_file : system.exists b.cacert ≡ true
    pub key_file : (kind ≡ pkcs11) ⊎ (system.exists b.certkey ≡ true)
    pub ssl : kf.boolean_of credentials (codes "ssl_verify") ≡ value verify
    pub ssl_verify : b.ssl_verify ≡ of_bool verify
    pub formed : IsWellFormed b.agent

  -- The texts that are read, in their order.
  read_everything :
      (R : Startup D W → Type 0) (kf : KeyFile) (s : Startup D W)
      → s.config ≡ some kf
      → ((npm stm cert key ca format : Str) (kind : KeyFormat) (v : Bool) (b : Startup D W)
          → kf.text_of core (codes "npm-directory") ≡ value npm
          → kf.text_of core (codes "stm-directory") ≡ value stm
          → kf.text_of credentials (codes "certificate") ≡ value cert
          → kf.text_of credentials (codes "certificate_key") ≡ value key
          → kf.text_of credentials (codes "ca_certificate") ≡ value ca
          → kf.text_of credentials (codes "keyformat") ≡ value format
          → format_of (some format) ≡ some kind
          → kf.boolean_of credentials (codes "ssl_verify") ≡ value v
          → lacks_file system connection gda pkgdata kind b ≡ false
          → settings_of b ≡ record {
            config = s.config;
            npm_directory = npm;
            stm_directory = stm;
            cert = cert;
            certkey = key;
            cacert = ca;
            keyformat = some kind;
            ssl_verify = of_bool v;
          }
          → IsWellFormed b.agent
          → R b)
      → Post (Unit {0}) (Clean R) (read_core system connection gda pkgdata none s)
  unfolding read_core read_credentials on_error gets ◌>>=◌
  read_everything R kf s configured next = read_setting R kf _ _ _ _ s configured λ npm h1.
      read_setting R kf _ _ _ _ _ configured λ stm h2.
        read_setting R kf _ _ _ _ _ configured λ cert h3.
          read_setting R kf _ _ _ _ _ configured λ key h4.
            read_setting R kf _ _ _ _ _ configured λ ca h5.
              read_text R kf _ _ _ _ configured λ format h6.
                read_format system connection gda pkgdata R kf format _ configured
                  λ kind v b h7 h8 there kept formed.
                    next npm stm cert key ca format kind v b h1 h2 h3 h4 h5 h6 h7 h8 there kept.same
                      formed

  -- The configuration that a run without an error has read.
  abbrev pub Read : Option Str → Startup D W → Type 0
  Read filename b = (f : Str) × (filename ≡ some f) × Accepted f b

  read_core-Read :
      (f : Str) (kf : KeyFile) (s : Startup D W)
      → system.load_file f ≡ value kf
      → s.config ≡ some kf
      → Post (Unit {0}) (Clean (Read (some f))) (read_core system connection gda pkgdata none s)
  read_core-Read f kf s loaded configured =
      read_everything (Read (some f)) kf s configured
        λ npm stm cert key ca format kind v b h1 h2 h3 h4 h5 h6 h7 h8 there same formed. (
          f,
          refl,
          record {
            kf = kf;
            format = format;
            kind = kind;
            verify = v;
            loaded = loaded;
            npm_directory = h1 ∙ sym (ap (λ (t : Settings). value t.npm_directory) same);
            stm_directory = h2 ∙ sym (ap (λ (t : Settings). value t.stm_directory) same);
            cert = h3 ∙ sym (ap (λ (t : Settings). value t.cert) same);
            certkey = h4 ∙ sym (ap (λ (t : Settings). value t.certkey) same);
            cacert = h5 ∙ sym (ap (λ (t : Settings). value t.cacert) same);
            keyformat = h6;
            known = format_of-name format kind h7;
            held = ap (λ (t : Settings). t.keyformat) same;
            cert_file = (files_there system connection gda pkgdata kind _ there).0;
            cacert_file = (files_there system connection gda pkgdata kind _ there).1;
            key_file = (files_there system connection gda pkgdata kind _ there).2;
            ssl = h8;
            ssl_verify = ap (λ (t : Settings). t.ssl_verify) same;
            formed = formed;
          },
        )

  do_keyagent_init-Read :
      (filename : Option Str) (s : Startup D W)
      → Post
          (Unit {0})
          (Clean (Read filename))
          (do_keyagent_init system connection gda pkgdata filename none s)
  unfolding do_keyagent_init on_error key_config_openfile modify ◌>>=◌
  do_keyagent_init-Read none s = refused (Read none) invalid_conf_value s
  do_keyagent_init-Read (some f) s =
      after_reading (Read (some f)) (system.load_file f) _ _ (λ _. tt) tt (named f s)
        (λ kf. record (named f s) { config = some kf }) (record (named f s) { config = none })
        (λ kf h. rw (key_config_openfile, h) refl) (λ e h. rw (key_config_openfile, h) refl)
        λ kf h. read_core-Read f kf _ h refl
    where
      named : Str → Startup D W → Startup D W
      named f s = record s { configdirectory = system.path_get_dirname f; configfilename = f }

  first_call :
      (filename : Option Str) (err : GError) (st : Started D W)
      → st.once ≡ false
      → st.error ≡ none
      → keyagent_init system connection gda pkgdata filename err st
        ≡ answered err
            (started_from (do_keyagent_init system connection gda pkgdata filename none st.startup))
  unfolding keyagent_init start_once
  first_call filename err st first clean =
      ap
        (λ (b : Bool). answered err (
          if b
          then some st
          else started_from
              (do_keyagent_init system connection gda pkgdata filename st.error st.startup)))
        first
      ∙ ap
          (λ (e : GError).
            answered err
              (started_from (do_keyagent_init system connection gda pkgdata filename e st.startup)))
          clean

  startup_in : Startup D W → Option (Bool × GError × Started D W) → Startup D W
  startup_in d none = d
  startup_in d (some (x, e, st)) = st.startup

  clean_answer :
      (R : Startup D W → Type 0) (r : Option (Bool × GError × Startup D W)) (err err' : GError)
      (st : Started D W)
      → Post (Unit {0}) (Clean R) r
      → answered err (started_from r) ≡ some (true, err', st)
      → R st.startup
  unfolding answered started_from startup_in Post
  clean_answer R none err err' st h eq = absurd (ground (arith, eq))
  clean_answer R (some (x, some e, s)) err err' st h eq = absurd (ground (arith, eq))
  clean_answer R (some (x, none, s)) err err' st h eq = subst R (ap (startup_in s) eq) (h refl)

  -- If the first call of `keyagent_init` answers TRUE, the configuration file could be loaded and
  -- has the two module directories, the certificate, its key, the CA certificate, a known key
  -- format and the Boolean `ssl_verify`; the certificate, the CA certificate and, where the
  -- format is PEMFILE, the key are files that are there; the globals hold what was read; and the
  -- tables are well formed.
  pub keyagent_init-Accepted :
      (filename : Option Str) (err err' : GError) (st st' : Started D W)
      → st.once ≡ false
      → st.error ≡ none
      → keyagent_init system connection gda pkgdata filename err st ≡ some (true, err', st')
      → Read filename st'.startup
  keyagent_init-Accepted filename err err' st st' first clean returned =
      clean_answer (Read filename) _ err err' st' (do_keyagent_init-Read filename st.startup)
        (sym (first_call filename err st first clean) ∙ returned)
