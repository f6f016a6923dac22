-- ===== src/Kms/Protocol.antt =====
-- npm/kms/src/intf.cpp: fetching a key from the server, with one retry under a new session.
use skc_library.Base.{
  ℕ, zero, suc, Bool, true, false, ◌&&◌, ◌||◌, not, Option, none, some, List, [], Str, codes, colon,
  split, token, beq_bytes, ltb, is_some, if◌then◌else◌,
}
use skc_library.Types.{
  json_parse, keyserver_error, invalid_status, load_key, register, invalid_npm_session_data,
}
use skc_library.Effect.{pure, fault, gets, ◌>>=◌}
use skc_library.KeyAgent.State.{Action}
use skc_library.KeyAgent.Database.{Gda}
use skc_library.KeyAgent.Key.{key_create}
use skc_library.KeyAgent.Session.{session_get_ids}
use skc_library.KeyAgent.Load.{KeyloadDetails, Npm}
use skc_library.Kms.Server.{Server, Reply}
use skc_library.Kms.Wire.{
  Transfer, kms_prefix_token, is_kms_token, transfer_url, transfer_headers, session_tokens,
  session_id_of, read_denial, read_transfer,
}
use skc_library.Kms.Start.{no_contact, is_status, refuse, send, start_session}

-- Two attempts, and the call that gives up.
abbrev pub loadkey_fuel : ℕ
loadkey_fuel = 3

module _ {D W J : Type 0} (server : Server J W) (gda : Gda W) (details : KeyloadDetails) where
  unfoldable pub create_key : Transfer → Str → Action D W Bool
  create_key t session_id = do
    q ← key_create gda details.url t.keytype (some t.attributes) (some session_id)
    pure (is_some q)

  unfoldable pub key_with_id : Transfer → Option (Option Str) → Action D W Bool
  key_with_id t none = fault
  key_with_id t (some none) = refuse server invalid_npm_session_data
  key_with_id t (some (some id)) = create_key t id

  unfoldable pub key_under : Transfer → Option (List Str) → Action D W Bool
  key_under t none = refuse server invalid_npm_session_data
  key_under t (some tokens) = key_with_id t (session_id_of tokens)

  -- The branch on status 200.
  unfoldable pub take_key : List Str → Option Transfer → Action D W Bool
  take_key headers none = refuse server json_parse
  take_key headers (some t) = key_under t (session_tokens headers none)

  -- The branch on status 401; `retry` is the recursive call.
  unfoldable pub take_denial : J → Action D W Bool → Option (Str × Str) → Action D W Bool
  take_denial data' retry none = refuse server json_parse
  take_denial data' retry (some (status, type)) =
      if beq_bytes status (codes "failure") && beq_bytes type (codes "not-authorized")
      then (do
        started ← start_session server gda details.request_id data'
        if started then retry else pure false)
      else pure false

  unfoldable pub take_reply : Action D W Bool → Reply → Action D W Bool
  take_reply retry r =
      if no_contact r.status
      then refuse server keyserver_error
      else (if is_status 401 r.status
          then take_denial (server.json.parse r.body) retry
              (read_denial server.json (server.json.parse r.body))
          else (if is_status 200 r.status
              then take_key r.headers
                  (read_transfer server.json server.base64 (server.json.parse r.body))
              else refuse server invalid_status))

  -- The body of `__npm_loadkey` after the test of `tries`.
  unfoldable pub attempt : Action D W Bool → Action D W Bool
  attempt retry =
      if is_kms_token (token (split colon details.url) 0)
      then (do
        ids ← gets session_get_ids
        reply ←
            send server (transfer_url server.server_url details.url)
              (transfer_headers details.stm_names ids) none
        take_reply retry reply)
      else refuse server load_key

  -- __npm_loadkey, on fuel.
  unfoldable pub npm_loadkey : ℕ → ℕ → Action D W Bool
  npm_loadkey zero tries = fault
  npm_loadkey (suc fuel) tries =
      if ltb 1 tries then refuse server load_key else attempt (npm_loadkey fuel (suc tries))

  unfoldable pub npm_key_load : Action D W Bool
  npm_key_load = npm_loadkey loadkey_fuel 0

unfoldable pub lacks_id : Option (Option Str) → Bool
lacks_id (some (some t)) = beq_bytes t []
lacks_id _ = true

module _ {D W J : Type 0} (server : Server J W) where
  -- npm_register
  unfoldable pub npm_register : Str → Action D W Bool
  npm_register url =
      if not (is_kms_token (token (split colon url) 0)) || lacks_id (token (split colon url) 1)
      then refuse server register
      else pure true

  -- The module as the key agent knows it, once `npm_init` has succeeded.
  unfoldable pub kms_npm : Gda W → Npm D W
  kms_npm gda = record {
    label = kms_prefix_token;
    initialized = true;
    register = npm_register;
    key_load = λ details. npm_key_load server gda details;
  }
