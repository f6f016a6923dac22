-- ===== src/Kms/Start.antt =====
-- npm/kms/src/intf.cpp: answering a challenge, which gives the key agent a session.
use skc_library.Base.{
  ℕ, Bool, false, ◌||◌, Option, none, some, List, Str, codes, c_str, beq_bytes, ◌==◌, is_some,
  if◌then◌else◌,
}
use skc_library.Types.{
  ℤ, pos, negsuc, NpmErrors, npm_error, json_parse, keyserver_error, invalid_status,
}
use skc_library.Effect.{pure, fault, raise, ◌>>=◌, ◌>>◌}
use skc_library.KeyAgent.State.{Action}
use skc_library.KeyAgent.Database.{Gda}
use skc_library.KeyAgent.Stm.{stm_get_challenge}
use skc_library.KeyAgent.Session.{session_create}
use skc_library.Kms.Server.{Server, Reply}
use skc_library.Kms.Wire.{
  Challenge, Granted, fill_nonce, json_headers, read_challenge, read_granted,
}

abbrev pub no_contact : ℤ → Bool
no_contact (pos n) = n == 0
no_contact (negsuc n) = n == 0

abbrev pub is_status : ℕ → ℤ → Bool
is_status n (pos m) = m == n
is_status n (negsuc m) = false

module _ {D W J : Type 0} (server : Server J W) where
  unfoldable pub refuse : NpmErrors → Action D W Bool
  refuse x = do raise (npm_error x); pure false

  -- skc_https_send
  unfoldable pub send : Str → List Str → Option (List ℕ) → Action D W Reply
  send url headers post e a =
      let (reply, w) = server.send url headers post a.world in
      some (reply, e, record a { world = w })

  -- `if (ret_status == FALSE && *error == NULL)`
  unfoldable pub explain_failure : Bool → Action D W Bool
  explain_failure made e a =
      if made || is_some e
      then some (made, e, a)
      else some (false, some (npm_error invalid_status), a)

  module _ (gda : Gda W) (request_id : Str) where
    unfoldable pub create_session : Challenge → Granted → Action D W Bool
    create_session c g = do
      made ←
          session_create gda request_id c.type (c_str (server.base64.decode c.session_id))
            g.protected_swk g.swk_type
      explain_failure made

    unfoldable pub take_grant : Challenge → Option Granted → Action D W Bool
    take_grant c none = refuse json_parse
    take_grant c (some g) = create_session c g

    unfoldable pub answer_status : Challenge → Reply → Action D W Bool
    answer_status c r =
        if no_contact r.status
        then refuse keyserver_error
        else (if is_status 201 r.status
            then take_grant c (read_granted server.json server.base64 (server.json.parse r.body))
            else refuse invalid_status)

    unfoldable pub answer_challenge : Challenge → Option (List ℕ) → Action D W Bool
    answer_challenge c none = fault
    answer_challenge c (some quote) = do
      reply ←
          send c.reply_to json_headers
            (some (server.json.write_session c.type c.session_id (server.base64.encode quote)))
      answer_status c reply

    unfoldable pub prove : Challenge → List ℕ → Action D W Bool
    prove c nonce = do
      challenge ← stm_get_challenge request_id nonce c.type
      if challenge.0 then answer_challenge c challenge.1 else pure false

    unfoldable pub nonce_or_fault : Challenge → Option (List ℕ) → Action D W Bool
    nonce_or_fault c none = fault
    nonce_or_fault c (some nonce) = prove c nonce

    unfoldable pub take_challenge : Option Challenge → Action D W Bool
    take_challenge none = refuse json_parse
    take_challenge (some c) =
        if beq_bytes c.method (codes "post")
        then nonce_or_fault c (fill_nonce server.stack (server.base64.decode c.session_id))
        else pure false

    -- start_session
    unfoldable pub start_session : J → Action D W Bool
    start_session transfer = take_challenge (read_challenge server.json transfer)
