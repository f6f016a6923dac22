-- ===== src/Details.antt =====
-- key-agent/types.h: the records through which the key agent, the STM and the API module call one
-- another. `D` is the type of the `module_data` pointers, `W` the world behind the callbacks.
use skc_library.Base.{ℕ, Bool, Option, List, Str}
use skc_library.Types.{Keytype, Call}

-- What the API module and the STM exchange; `D` is the type of the `module_data` pointers.
pub record LoadkeyDetails (D : Type 0) : Type 0 where
  pub label : Str
  pub url : Str
  pub type : Keytype
  pub key : List ℕ
  pub iv : Option (List ℕ)
  pub tag_size : ℕ
  pub module_data : Option D

pub record SessionDetails (D : Type 0) : Type 0 where
  pub label : Str
  pub module_data : Option D
  pub swk_type : Option Str
  pub session : List ℕ

pub record ChallengeDetails (D : Type 0) : Type 0 where
  pub label : Str
  pub nonce : List ℕ
  pub module_data : Option D

pub data LaunchPolicy : Type 0 where
  ql_persistent ql_ephemeral ql_default : LaunchPolicy

-- keyagent_sgx_challenge_request
pub record ChallengeRequest : Type 0 where
  pub launch_policy : LaunchPolicy
  pub nonce : List ℕ
  pub attestation_type : Str

-- keyagent_apimodule_ops: callbacks that may be NULL. `get_challenge` also leaves a challenge.
pub record ApimoduleOps (D W : Type 0) : Type 0 where
  pub load_key : Option (LoadkeyDetails D → Call W Bool)
  pub get_challenge :
      Option (ChallengeDetails D → ChallengeRequest → Call W (Bool × Option (List ℕ)))
  pub set_wrapping_key : Option (SessionDetails D → Call W Bool)
