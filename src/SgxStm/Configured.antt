-- ===== src/SgxStm/Configured.antt =====
-- What the secure token module has read once it reports its label.
use skc_library.Base.{
  ◌≡◌, refl, ap, ◌≢◌, ◌⊎◌, inl, inr, Bool, true, false, Option, none, some, Str, arith, codes,
  is_some, beq_bytes, beq_bytes_iff, if◌then◌else◌, subst,
}
use skc_library.Types.{GError, pos}
use skc_library.Config.{
  KeyFile, Reading, value, key_config_openfile, key_config_get_boolean_optional,
}
use skc_library.Config.Reads.{openfile-cases, get_string-cases}
use skc_library.SgxStm.Init.{
  StmSettings, core, ecdsa, filename, read_launch_policy, choose_policy, read_attestation,
  read_configuration, application_stm_init, label_of, stm_init,
}

-- The file was read. Under ECDSA the launch policy is the file's; under any other type it is what
-- it was before, which at the start is NULL.
pub record Configured (load : Str → Reading KeyFile) (file : Str) (old s : StmSettings)
    : Type 0 where
  pub kf : KeyFile
  pub kind : Str
  pub loaded : load file ≡ value kf
  pub typed : kf.text_of core (codes "type") ≡ value kind
  pub attestation_type : s.attestation_type ≡ some kind
  pub policy :
      ((kind ≡ ecdsa)
        × ((p : Str) × (kf.text_of ecdsa (codes "launch_policy") ≡ value p)
            × (s.ql_policy ≡ some p)))
      ⊎ ((kind ≢ ecdsa) × (s.ql_policy ≡ old.ql_policy))

-- What is claimed of a reading: it ends, and without an error it is configured.
Sound : (StmSettings → Type 0) → Option (GError × StmSettings) → Type 0
Sound R none = true ≡ false
Sound R (some (some e, s)) = Unit
Sound R (some (none, s)) = R s

policy-Sound :
    (R : StmSettings → Type 0) (kf : KeyFile) (s : StmSettings)
    → ((p : Str)
        → kf.text_of ecdsa (codes "launch_policy") ≡ value p
        → R (record s { ql_policy = some p }))
    → Sound R (some (read_launch_policy (some kf) s))
unfolding read_launch_policy Sound
policy-Sound R kf s next =
    get_string-cases (λ r. Sound R (some (r.1, record s { ql_policy = r.0 }))) kf ecdsa
      (codes "launch_policy") next λ _ _. tt

chosen-Sound :
    (R : StmSettings → Type 0) (kf : KeyFile) (kind : Str) (s : StmSettings)
    → ((p : Str)
        → kind ≡ ecdsa
        → kf.text_of ecdsa (codes "launch_policy") ≡ value p
        → R (record s { ql_policy = some p }))
    → (kind ≢ ecdsa → R s)
    → Sound R (choose_policy (some kf) (some kind) s)
unfolding choose_policy Sound
chosen-Sound R kf kind s same other = go (beq_bytes kind ecdsa) refl
  where
    go :
        (b : Bool)
        → beq_bytes kind ecdsa ≡ b
        → Sound R (if b then some (read_launch_policy (some kf) s) else some (none, s))
    go true h = policy-Sound R kf s λ p t. same p (ground (arith, h, beq_bytes_iff kind ecdsa)) t
    go false h = other λ t. ground (arith, h, t, beq_bytes_iff kind ecdsa)

module _ (build_filename : Str → Str → Str) (load : Str → Reading KeyFile) where
  opened-Sound :
      (directory : Str) (s : StmSettings)
      → Sound
          (Configured load (filename build_filename load directory) s)
          (application_stm_init build_filename load (some directory) none s)
  unfolding application_stm_init read_configuration read_attestation Sound
  opened-Sound directory s =
      openfile-cases (λ r. Sound claim (read_configuration r named)) load file
        (λ kf loaded.
          get_string-cases (λ r. Sound claim (read_attestation (some kf) r (debugged kf))) kf core
            (codes "type")
            (λ kind typed.
              chosen-Sound claim kf kind _
                (λ p same policy. record {
                  kf = kf;
                  kind = kind;
                  loaded = loaded;
                  typed = typed;
                  attestation_type = refl;
                  policy = inl (same, (p, policy, refl));
                })
                λ other. record {
                  kf = kf;
                  kind = kind;
                  loaded = loaded;
                  typed = typed;
                  attestation_type = refl;
                  policy = inr (other, refl);
                })
            λ _ _. tt)
        λ _ _. tt
    where
      file : Str
      file = filename build_filename load directory

      claim : StmSettings → Type 0
      claim = Configured load file s

      named : StmSettings
      named = record s { configfile = file }

      debugged : KeyFile → StmSettings
      debugged kf = record named {
        debug = key_config_get_boolean_optional (some kf) core (codes "debug") (pos 0);
      }

  ended :
      (R : StmSettings → Type 0) (r : Option (GError × StmSettings)) → Sound R r → is_some r ≡ true
  unfolding Sound
  ended R none h = absurd (ground (arith, h))
  ended R (some r) h = refl

  -- `stm_init` always returns, whatever the file holds: no text that is NULL is compared.
  pub stm_init-is_some :
      (directory : Option Str) (e : GError) (s : StmSettings)
      → is_some (stm_init build_filename load directory e s) ≡ true
  unfolding stm_init application_stm_init read_configuration key_config_openfile
  stm_init-is_some none e s = refl
  stm_init-is_some (some directory) (some e) s = refl
  stm_init-is_some (some directory) none s = labelled _ (ended _ _ (opened-Sound directory s))
    where
      labelled :
          (r : Option (GError × StmSettings))
          → is_some r ≡ true
          → is_some (elim r as (λ _. Option (Option Str × GError × StmSettings)) [
            | none ↦ none
            | some r ↦ some (label_of build_filename load r)
          ])
            ≡ true
      labelled none h = h
      labelled (some r) h = refl

  settings_in : StmSettings → Option (Option Str × GError × StmSettings) → StmSettings
  settings_in d none = d
  settings_in d (some (x, e, s)) = s

  -- If `stm_init` reports its label, the file of the directory was loaded and has an attestation
  -- type, which is kept. If the type is ECDSA, the launch policy of the file is kept; under any
  -- other type the launch policy is the one from before the call.
  pub stm_init-Configured :
      (directory label : Str) (e : GError) (s s' : StmSettings)
      → stm_init build_filename load (some directory) none s ≡ some (some label, e, s')
      → Configured load (filename build_filename load directory) s s'
  unfolding stm_init Sound label_of settings_in
  stm_init-Configured directory label e s s' returned =
      go (application_stm_init build_filename load (some directory) none s)
        (opened-Sound directory s) returned
    where
      claim : StmSettings → Type 0
      claim = Configured load (filename build_filename load directory) s

      go :
          (r : Option (GError × StmSettings))
          → Sound claim r
          → (elim r as (λ _. Option (Option Str × GError × StmSettings)) [
            | none ↦ none
            | some r ↦ some (label_of build_filename load r)
          ])
            ≡ some (some label, e, s')
          → claim s'
      go none h eq = absurd (ground (arith, eq))
      go (some (some x, t)) h eq = absurd (ground (arith, eq))
      go (some (none, t)) h eq = subst claim (ap (settings_in t) eq) h
