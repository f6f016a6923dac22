-- ===== src/SgxStm.antt =====
-- stm/sgx/src/application_intf.cpp: the secure token module for SGX, as the operations that the key
-- agent calls. It hands challenges, sessions and keys on to the API module's callbacks.
pub mod Challenges
pub mod Init
pub mod Configured
mod Tests
use skc_library.Base.{
  ℕ, Bool, true, false, not, ◌&&◌, Option, none, some, List, Str, codes, beq_bytes, is_some,
  if◌then◌else◌,
}
use skc_library.Types.{GError, k_set_error, stm_error, api_module_loadkey, Call}
use skc_library.Details.{
  LoadkeyDetails, SessionDetails, ChallengeDetails, ChallengeRequest, LaunchPolicy, ql_persistent,
  ql_ephemeral,
}
use skc_library.KeyAgent.State.{StmOps}

-- The launch policy of the configuration; any other text is an error.
unfoldable pub policy_of : Str → Option LaunchPolicy
policy_of text =
    if beq_bytes text (codes "PERSISTENT")
    then some ql_persistent
    else (if beq_bytes text (codes "EPHEMERAL") then some ql_ephemeral else none)

module _ {W : Type 0} where
  unfoldable pub no_callback : {A : Type 0} → A → Call W A
  no_callback x e w = (x, k_set_error e (stm_error api_module_loadkey), w)

  -- From the callback's return on: an answer without a challenge and without an error is an error.
  unfoldable pub challenge_outcome :
      (Bool × Option (List ℕ)) × GError × W → (Bool × Option (List ℕ)) × GError × W
  challenge_outcome ((ret, challenge), e, w) =
      if not (is_some challenge) && not (is_some e)
      then ((false, challenge), k_set_error e (stm_error api_module_loadkey), w)
      else ((ret, challenge), e, w)

module _ {D W : Type 0} where
  unfoldable pub ask_api :
      Option LaunchPolicy
      → Str
      → (ChallengeDetails D → ChallengeRequest → Call W (Bool × Option (List ℕ)))
      → ChallengeDetails D
      → Call W (Bool × Option (List ℕ))
  ask_api none attestation cb details e w = no_callback (false, none) e w
  ask_api (some policy) attestation cb details e w = challenge_outcome (
      cb details
        (record { launch_policy = policy; nonce = details.nonce; attestation_type = attestation }) e
        w)

  unfoldable pub stm_create_challenge :
      Str
      → Str
      → Option (ChallengeDetails D → ChallengeRequest → Call W (Bool × Option (List ℕ)))
      → ChallengeDetails D
      → Call W (Bool × Option (List ℕ))
  stm_create_challenge policy attestation none details e w = no_callback (false, none) e w
  stm_create_challenge policy attestation (some cb) details e w =
      ask_api (policy_of policy) attestation cb details e w

  unfoldable pub sgx_set_session :
      Option (SessionDetails D → Call W Bool) → SessionDetails D → Call W Bool
  sgx_set_session none details e w = no_callback false e w
  sgx_set_session (some cb) details e w = cb details e w

  unfoldable pub sgx_stm_load_key :
      Option (LoadkeyDetails D → Call W Bool) → LoadkeyDetails D → Call W Bool
  sgx_stm_load_key none details e w = no_callback false e w
  sgx_stm_load_key (some cb) details e w = cb details e w

  -- The module's operations, with the launch policy and the attestation type of its configuration.
  unfoldable pub sgx_stm_ops : Str → Str → StmOps D W
  sgx_stm_ops policy attestation = record {
    create_challenge = λ id cb details. stm_create_challenge policy attestation cb details;
    set_session = λ id cb details. sgx_set_session cb details;
    load_key = λ id type cb details. sgx_stm_load_key cb details;
  }
