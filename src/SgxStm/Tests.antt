-- ===== src/SgxStm/Tests.antt =====
-- Runs of the SGX secure token module.
use skc_library.Base.{
  ℕ, ◌+◌, ◌≡◌, ◌++◌, if◌then◌else◌, refl, Bool, true, Option, none, some, List, [], ◌∷◌, Str, codes,
  is_some, beq_bytes,
}
use skc_library.Types.{Call, foreign, pos}
use skc_library.Config.{KeyFile, Reading, value, failed}
use skc_library.Details.{ChallengeDetails, ChallengeRequest}
use skc_library.SgxStm.{policy_of, challenge_outcome, ask_api, stm_create_challenge}
use skc_library.SgxStm.Init.{StmSettings, stm_init}
use skc_library.SgxStm.Configured.{Configured, stm_init-Configured, stm_init-is_some}
use skc_library.SgxStm.Challenges.{stm_create_challenge-is_some}

abbrev answers : ChallengeDetails Str → ChallengeRequest → Call ℕ (Bool × Option (List ℕ))
answers details request e w = ((true, some (1 ∷ 2 ∷ [])), e, w + 1)

abbrev details0 : ChallengeDetails Str
details0 = record { label = codes "SGX"; nonce = []; module_data = none }

ran :
    stm_create_challenge (codes "PERSISTENT") (codes "ECDSA") (some answers) details0 none 0
    ≡ ((true, some (1 ∷ 2 ∷ [])), none, 1)
unfolding stm_create_challenge ask_api policy_of challenge_outcome beq_bytes
ran = refl

stm_create_challenge-is_some_example : is_some {A = List ℕ} (some (1 ∷ 2 ∷ [])) ≡ true
stm_create_challenge-is_some_example =
    stm_create_challenge-is_some (codes "PERSISTENT") (codes "ECDSA") (some answers) details0 none 0
      1 (some (1 ∷ 2 ∷ [])) ran

abbrev in_directory : Str → Str → Str
in_directory directory name = directory ++ name

-- A file with an attestation type and a launch policy.
abbrev file_of : Str → KeyFile
file_of kind = record {
  text_of =
      λ section key. value (if beq_bytes key (codes "type") then kind else codes "PERSISTENT");
  integer_of = λ section key. failed (foreign 4);
  boolean_of = λ section key. value true;
}

abbrev unset : StmSettings
unset = record { configfile = []; debug = pos 0; attestation_type = none; ql_policy = none }

-- The settings after a start under an attestation type, with a launch policy.
abbrev settings_under : Str → Option Str → StmSettings
settings_under kind policy = record {
  configfile = codes "/etc/sgx_stm.ini";
  debug = pos 1;
  attestation_type = some kind;
  ql_policy = policy;
}

started_ecdsa :
    stm_init in_directory (λ _. value (file_of (codes "ECDSA"))) (some (codes "/etc/")) none unset
    ≡ some (some (codes "SGX"), none, settings_under (codes "ECDSA") (some (codes "PERSISTENT")))
unfolding skc_library.SgxStm.Init.read_launch_policy skc_library.SgxStm.Init.choose_policy
    skc_library.SgxStm.Init.read_attestation skc_library.SgxStm.Init.read_configuration
    skc_library.SgxStm.Init.application_stm_init skc_library.SgxStm.Init.label_of stm_init
    skc_library.Config.key_config_openfile skc_library.Config.key_config_get_string
    skc_library.Config.key_config_get_boolean skc_library.Config.key_config_get_boolean_optional
    beq_bytes
started_ecdsa = refl

-- Under an unknown type the module starts, and has no launch policy.
started_other :
    stm_init in_directory (λ _. value (file_of (codes "EPID"))) (some (codes "/etc/")) none unset
    ≡ some (some (codes "SGX"), none, settings_under (codes "EPID") none)
unfolding skc_library.SgxStm.Init.read_launch_policy skc_library.SgxStm.Init.choose_policy
    skc_library.SgxStm.Init.read_attestation skc_library.SgxStm.Init.read_configuration
    skc_library.SgxStm.Init.application_stm_init skc_library.SgxStm.Init.label_of stm_init
    skc_library.Config.key_config_openfile skc_library.Config.key_config_get_string
    skc_library.Config.key_config_get_boolean skc_library.Config.key_config_get_boolean_optional
    beq_bytes
started_other = refl

stm_init-Configured_example :
    Configured
      (λ _. value (file_of (codes "EPID")))
      (codes "/etc/sgx_stm.ini")
      unset
      (settings_under (codes "EPID") none)
stm_init-Configured_example =
    stm_init-Configured in_directory (λ _. value (file_of (codes "EPID"))) (codes "/etc/")
      (codes "SGX") none unset (settings_under (codes "EPID") none) started_other

stm_init-is_some_example :
    is_some (
      stm_init in_directory
        (λ _. value (file_of (codes "ECDSA")))
        (some (codes "/etc/"))
        none
        unset)
    ≡ true
stm_init-is_some_example =
    stm_init-is_some in_directory (λ _. value (file_of (codes "ECDSA"))) (some (codes "/etc/")) none
      unset
