-- ===== src/KeyAgent/Stm.antt =====
-- key-agent/stm/stm_init.cpp: what the key agent asks of a secure token module.
pub mod LoadsKey
use skc_library.Base.{
  ℕ, zero, suc, ◌+◌, Bool, true, false, not, ◌||◌, bytes_eq, ◌++◌, Option, none, some, List, [],
  ◌∷◌, Str, is_some, ltb, length, codes, if◌then◌else◌, take,
}
use skc_library.Base.Table.{Table, lookup, insert}
use skc_library.Types.{
  stm_error, keyagent_error, keyinit, StmErrors, invalid_session_data, invalid_challenge_data,
  invalid_loadkey_data,
}
use skc_library.Details.{LoadkeyDetails, SessionDetails, ChallengeDetails, ApimoduleOps}
use skc_library.KeyAgent.State.{
  gpointer_eq, Gpointer, quark, Session, Key, Agent, Action, Stm, Request, call, session_at,
}
use skc_library.Effect.{pure, fault, gets, modify, raise, ◌>>=◌, ◌>>◌}
use skc_library.KeyAgent.Cache.{keydata}
use skc_library.KeyAgent.SwkType.{lookup_swktype}
use skc_library.KeyAgent.Transfer.{KeyTransfer, transfer_size, read_header, slice}

-- The bound on the length of an initialisation vector.
abbrev pub max_iv_length : ℕ
max_iv_length = 64

abbrev pub nonce_length : ℕ
nonce_length = 32

-- The initialisation vector, NULL if its length is 0.
unfoldable pub read_iv : List ℕ → KeyTransfer → Option (Option (List ℕ))
unfolding slice
read_iv bytes t = elim t.iv_length [
  | zero ↦ some none
  | suc n ↦ elim (slice bytes transfer_size (suc n)) [ none ↦ none | some iv ↦ some (some iv) ]
]

-- What an STM is given: the header's fields, the vector and the wrapped key.
pub record Unpacked : Type 0 where
  pub iv : Option (List ℕ)
  pub wrapped_key : List ℕ
  pub tag_size : ℕ

unfoldable pub read_parts : List ℕ → KeyTransfer → Option Unpacked
unfolding slice read_iv
read_parts bytes t = elim (read_iv bytes t) [
  | none ↦ none
  | some iv ↦ elim (slice bytes (transfer_size + t.iv_length) t.wrap_size) [
    | none ↦ none
    | some key ↦ some (record { iv = iv; wrapped_key = key; tag_size = t.tag_size })
  ]
]

-- A comma-separated list of labels, as `__get_stm_names` builds it.
unfoldable pub add_name : Str → Str → Str
add_name [] label = label
add_name (c ∷ s) label = (c ∷ s) ++ b',' ∷ label

module _ {D W : Type 0} where
  unfoldable pub stm_names : Bool → Table Gpointer (Stm D W) → Str → Str
  unfolding add_name
  stm_names apimodule_check [] names = names
  stm_names apimodule_check ((_, stm) ∷ t) names =
      stm_names apimodule_check t
        (if not apimodule_check || stm.apimodule then add_name names stm.label else names)

  unfoldable pub stm_get_names : Agent D W → Str
  unfolding stm_names
  stm_get_names a = stm_names false a.stm_hash []

  unfoldable pub stm_get_apimodule_enabled_names : Agent D W → Str
  unfolding stm_names
  stm_get_apimodule_enabled_names a = stm_names true a.stm_hash []

  unfoldable pub stm_get_by_name : Agent D W → Str → Option (Stm D W)
  stm_get_by_name a name = lookup (quark name) a.stm_hash

  unfoldable pub put_stm : Str → Stm D W → Agent D W → Agent D W
  put_stm name stm a = record a { stm_hash = insert (quark name) stm a.stm_hash }

  unfoldable pub put_request : Str → Request D → Agent D W → Agent D W
  put_request id r a = record a { apimodule_loadkey_hash = insert id r a.apimodule_loadkey_hash }

  -- __keyagent_stm_apimodule_enable
  unfoldable pub stm_apimodule_enable : Str → Action D W Bool
  unfolding stm_get_by_name put_stm
  stm_apimodule_enable name = do
    found ← gets (λ a. stm_get_by_name a name)
    elim found [
      | none ↦ pure false
      | some stm ↦ do
        modify λ a. record (put_stm name (record stm { apimodule = true }) a) {
          apimodule_enabled = true;
        }
        pure true
    ]

  unfoldable pub no_session : Action D W Bool
  no_session = do raise (stm_error invalid_session_data); pure false

  -- The STM and the request take note of one another, and the wrapping key goes to the STM.
  unfoldable pub hand_session : Str → ℕ → Session → Stm D W → Request D → Action D W Bool
  unfolding put_stm put_request
  hand_session request_id p s stm request = do
    modify (put_stm s.name (record stm { session = some p }))
    modify (put_request request_id (record request { stm_name = some stm.label }))
    types ← gets (λ a. a.swk_type_hash)
    ops ← gets (λ a. a.apimodule_ops)
    call (
        stm.ops.set_session request_id ops.set_wrapping_key (record {
          label = s.name;
          module_data = request.module_data;
          swk_type = lookup_swktype types s.swk_type;
          session = s.swk;
        }))

  unfoldable pub set_session_found :
      Str → ℕ → Session → Option (Stm D W) → Option (Request D) → Action D W Bool
  unfolding hand_session no_session
  set_session_found request_id p s none request = no_session
  set_session_found request_id p s (some stm) none = no_session
  set_session_found request_id p s (some stm) (some request) =
      hand_session request_id p s stm request

  -- __keyagent_stm_set_session, at a session that is not NULL.
  unfoldable pub stm_set_session : Str → ℕ → Action D W Bool
  unfolding set_session_found stm_get_by_name
  stm_set_session request_id p = do
    s ← gets (λ a. session_at a p)
    stm ← gets (λ a. stm_get_by_name a s.name)
    request ← gets (λ a. lookup request_id a.apimodule_loadkey_hash)
    set_session_found request_id p s stm request

  unfoldable pub no_challenge : Action D W (Bool × Option (List ℕ))
  no_challenge = do raise (stm_error invalid_challenge_data); pure (false, none)

  unfoldable pub ask_challenge :
      Str → List ℕ → Str → Stm D W → Request D → Action D W (Bool × Option (List ℕ))
  unfolding put_request
  ask_challenge request_id nonce name stm request = do
    modify (put_request request_id (record request { stm_name = some stm.label }))
    ops ← gets (λ a. a.apimodule_ops)
    call (
        stm.ops.create_challenge request_id ops.get_challenge (record {
          label = name;
          nonce = take nonce_length nonce;
          module_data = request.module_data;
        }))

  unfoldable pub challenge_found :
      Str
      → List ℕ
      → Str
      → Option (Stm D W)
      → Option (Request D)
      → Action D W (Bool × Option (List ℕ))
  unfolding ask_challenge no_challenge
  challenge_found request_id nonce name none request = no_challenge
  challenge_found request_id nonce name (some stm) none = no_challenge
  challenge_found request_id nonce name (some stm) (some request) =
      ask_challenge request_id nonce name stm request

  -- __keyagent_stm_get_challenge, at arguments that are not NULL.
  unfoldable pub stm_get_challenge : Str → List ℕ → Str → Action D W (Bool × Option (List ℕ))
  unfolding challenge_found stm_get_by_name
  stm_get_challenge request_id nonce name = do
    stm ← gets (λ a. stm_get_by_name a name)
    request ← gets (λ a. lookup request_id a.apimodule_loadkey_hash)
    challenge_found request_id nonce name stm request

  unfoldable pub no_loadkey : Action D W Bool
  no_loadkey = do raise (stm_error invalid_loadkey_data); pure false

  unfoldable pub unpack : List ℕ → KeyTransfer → Action D W Unpacked
  unfolding read_parts
  unpack bytes t = elim (read_parts bytes t) [ none ↦ fault | some parts ↦ pure parts ]

  -- The key goes to the STM with the wrapping-key type of the session that the STM holds.
  unfoldable pub hand_key : Str → Key → Stm D W → Request D → ℕ → Unpacked → Action D W Bool
  hand_key request_id key stm request p parts = do
    types ← gets (λ a. a.swk_type_hash)
    ops ← gets (λ a. a.apimodule_ops)
    s ← gets (λ a. session_at a p)
    call (
        stm.ops.load_key request_id (lookup_swktype types s.swk_type) ops.load_key (record {
          label = stm.label;
          url = key.url;
          type = key.type;
          key = parts.wrapped_key;
          iv = parts.iv;
          tag_size = parts.tag_size;
          module_data = request.module_data;
        }))

  unfoldable pub load_transfer :
      Str → Key → Stm D W → Request D → ℕ → List ℕ → KeyTransfer → Action D W Bool
  unfolding unpack hand_key no_loadkey
  load_transfer request_id key stm request p bytes t =
      if ltb max_iv_length t.iv_length
      then no_loadkey
      else (do parts ← unpack bytes t; hand_key request_id key stm request p parts)

  unfoldable pub load_keydata : Str → Key → Stm D W → Request D → ℕ → Action D W Bool
  unfolding load_transfer
  load_keydata request_id key stm request p = elim (lookup keydata key.attributes) [
    | none ↦ fault
    | some bytes ↦ elim (read_header bytes) [
      | none ↦ fault
      | some t ↦ load_transfer request_id key stm request p bytes t
    ]
  ]

  unfoldable pub load_key_held : Str → Key → Stm D W → Request D → Option ℕ → Action D W Bool
  unfolding load_keydata no_loadkey
  load_key_held request_id key stm request none = no_loadkey
  load_key_held request_id key stm request (some p) = load_keydata request_id key stm request p

  unfoldable pub load_key_found :
      Str → Key → Option (Stm D W) → Option (Request D) → Action D W Bool
  unfolding load_key_held no_loadkey
  load_key_found request_id key none request = no_loadkey
  load_key_found request_id key (some stm) none = no_loadkey
  load_key_found request_id key (some stm) (some request) =
      load_key_held request_id key stm request stm.session

  -- __keyagent_stm_load_key, at a key that is not NULL.
  unfoldable pub stm_load_key : Str → Key → Action D W Bool
  unfolding load_key_found stm_get_by_name
  stm_load_key request_id key = elim key.session [
    | none ↦ do raise (keyagent_error keyinit); pure false
    | some q ↦ do
      name ← gets (λ a. (session_at a q).name)
      stm ← gets (λ a. stm_get_by_name a name)
      request ← gets (λ a. lookup request_id a.apimodule_loadkey_hash)
      load_key_found request_id key stm request
  ]
