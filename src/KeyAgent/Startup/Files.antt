-- ===== src/KeyAgent/Startup/Files.antt =====
-- The files that a configuration has to name, and the format of its keys (key-agent/src/intf.cpp).
use skc_library.Base.{
  beq_bytes_iff, ◌≡◌, refl, ap, ◌∙◌, Bool, true, false, Option, none, some, Str, arith, codes, inl,
  inr, ◌⊎◌,
}
use skc_library.Types.{GError, ℤ, pos, invalid_conf_value, invalid_keyformat}
use skc_library.Config.{value, failed, KeyFile, of_bool}
use skc_library.Config.Reads.{boolean_of_reading}
use skc_library.KeyAgent.Startup.Reads.{Clean, refused, after_reading}
use skc_library.Effect.{gets, modify, ◌>>=◌}
use skc_library.Effect.Post.{Post, Post-weaken, Post-both, Post-if, Post-option}
use skc_library.KeyAgent.Database.{Gda}
use skc_library.KeyAgent.Startup.{System, Startup, KeyFormat, pem, pkcs11, on_error}
use skc_library.KeyAgent.Startup.Cache.{Connection}
use skc_library.KeyAgent.Startup.Init.{
  format_of, credentials, new_tables, load_modules, check_ssl, lacks_file, check_files,
  check_format,
}
use skc_library.KeyAgent.WellFormed.{IsWellFormed}
use skc_library.KeyAgent.Startup.Formed.{AgentKept, load_modules-AgentKept, new_tables-IsWellFormed}
use skc_library.KeyAgent.Startup.Settings.{Settings, SameSettings, load_modules-SameSettings}

-- The two formats by their names.
abbrev pub format_name : KeyFormat → Str
format_name pkcs11 = codes "PKCS11"
format_name pem = codes "PEMFILE"

pub format_of-name :
    (s : Str) (kind : KeyFormat) → format_of (some s) ≡ some kind → s ≡ format_name kind
unfolding format_of
format_of-name s pkcs11 h =
    ground (arith, h, beq_bytes_iff s (codes "PKCS11"), beq_bytes_iff s (codes "PEMFILE"))
format_of-name s pem h =
    ground (arith, h, beq_bytes_iff s (codes "PKCS11"), beq_bytes_iff s (codes "PEMFILE"))

module _ {D W : Type 0} (system : System D W) (connection : Connection W) (gda : Gda W)
    (pkgdata : Str) where
  modules_kept :
      (R : Startup D W → Type 0) (s : Startup D W)
      → IsWellFormed s.agent
      → ((b : Startup D W) → SameSettings s b → IsWellFormed b.agent → R b)
      → Post (Unit {0}) (Clean R) (load_modules system connection gda pkgdata none s)
  modules_kept R s formed h =
      Post-weaken _ _ _ _ _ (λ z. z) (λ _ _ b k _. h b k.0 (k.1.agent.kept formed))
        (Post-both _ (λ _ _ b. SameSettings s b) (λ _ _ b. AgentKept s b) _
          ((load_modules-SameSettings system connection gda pkgdata).at none s)
          ((load_modules-AgentKept system connection gda pkgdata).at none s))

  read_ssl :
      (R : Startup D W → Type 0) (kf : KeyFile) (s : Startup D W)
      → s.config ≡ some kf
      → ((v : Bool) (b : Startup D W)
          → kf.boolean_of credentials (codes "ssl_verify") ≡ value v
          → SameSettings (record s { ssl_verify = of_bool v }) b
          → IsWellFormed b.agent
          → R b)
      → Post (Unit {0}) (Clean R) (check_ssl system connection gda pkgdata none s)
  unfolding check_ssl on_error gets modify new_tables ◌>>=◌
  read_ssl R kf s configured next =
      after_reading R (kf.boolean_of credentials (codes "ssl_verify")) _ _ (λ _. tt) tt s
        (λ v. record s { ssl_verify = of_bool v }) (record s { ssl_verify = pos 0 })
        (λ v h.
          ap outcome (
            boolean_of_reading kf credentials (codes "ssl_verify") s.config (value v) configured h))
        (λ e h.
          ap outcome (
            boolean_of_reading kf credentials (codes "ssl_verify") s.config (failed e) configured
              h))
        λ v h.
          modules_kept R (new_tables (record s { ssl_verify = of_bool v }))
            (new_tables-IsWellFormed (record s { ssl_verify = of_bool v }))
            λ b k formed. next v b h (record { same = k.same }) formed
    where
      outcome : ℤ × GError → Option (Unit {0} × GError × Startup D W)
      outcome r = some (tt, r.1, record s { ssl_verify = r.0 })

  -- Which files are looked for does not depend on the other settings.
  lacks_file-same :
      (kind : KeyFormat) (a b : Startup D W)
      → b.cert ≡ a.cert
      → b.certkey ≡ a.certkey
      → b.cacert ≡ a.cacert
      → lacks_file system connection gda pkgdata kind b
        ≡ lacks_file system connection gda pkgdata kind a
  unfolding lacks_file
  lacks_file-same pkcs11 a b h k l = rw (h, l) refl
  lacks_file-same pem a b h k l = rw (h, k, l) refl

  read_files :
      (R : Startup D W → Type 0) (kf : KeyFile) (kind : KeyFormat) (s : Startup D W)
      → s.config ≡ some kf
      → ((v : Bool) (b : Startup D W)
          → kf.boolean_of credentials (codes "ssl_verify") ≡ value v
          → lacks_file system connection gda pkgdata kind b ≡ false
          → SameSettings (record s { keyformat = some kind; ssl_verify = of_bool v }) b
          → IsWellFormed b.agent
          → R b)
      → Post (Unit {0}) (Clean R) (check_files system connection gda pkgdata kind none s)
  unfolding check_files gets modify ◌>>=◌
  read_files R kf kind s configured next =
      Post-if _ (Clean R)
        (lacks_file system connection gda pkgdata kind (record s { keyformat = some kind })) _ _
        none (record s { keyformat = some kind }) (λ _. refused R invalid_conf_value _)
        λ there. read_ssl R kf _ configured λ v b h k formed.
          next v b h
            (lacks_file-same kind (record s { keyformat = some kind }) b
                (ap (λ (t : Settings). t.cert) k.same) (ap (λ (t : Settings). t.certkey) k.same)
                (ap (λ (t : Settings). t.cacert) k.same)
              ∙ there)
            k formed

  pub read_format :
      (R : Startup D W → Type 0) (kf : KeyFile) (format : Str) (s : Startup D W)
      → s.config ≡ some kf
      → ((kind : KeyFormat) (v : Bool) (b : Startup D W)
          → format_of (some format) ≡ some kind
          → kf.boolean_of credentials (codes "ssl_verify") ≡ value v
          → lacks_file system connection gda pkgdata kind b ≡ false
          → SameSettings (record s { keyformat = some kind; ssl_verify = of_bool v }) b
          → IsWellFormed b.agent
          → R b)
      → Post (Unit {0}) (Clean R) (check_format system connection gda pkgdata (some format) none s)
  unfolding check_format
  read_format R kf format s configured next =
      Post-option _ (Clean R) (format_of (some format)) _ _ none s
        (λ _. refused R invalid_keyformat s)
        λ kind h. read_files R kf kind s configured λ v b k t w formed. next kind v b h k t w formed

  -- The files that are there where none is missing.
  pub files_there :
      (kind : KeyFormat) (b : Startup D W)
      → lacks_file system connection gda pkgdata kind b ≡ false
      → (system.exists b.cert ≡ true)
        × (system.exists b.cacert ≡ true)
        × ((kind ≡ pkcs11) ⊎ (system.exists b.certkey ≡ true))
  unfolding lacks_file
  files_there pkcs11 b there = (ground (arith, there), ground (arith, there), inl refl)
  files_there pem b there =
      (ground (arith, there), ground (arith, there), inr (ground (arith, there)))
