-- ===== src/Kms/Tame.antt =====
-- The protocol module (npm/kms/src/intf.cpp) works on the key agent through calls that keep its state
-- well formed.
use skc_library.Base.{
  ℕ, suc, zero, ◌≡◌, Bool, true, false, ◌||◌, is_some, if◌then◌else◌, Option, none, some, List, [],
  ◌∷◌, Str,
}
use skc_library.Types.{GError, NpmErrors, npm_error, invalid_status}
use skc_library.Effect.Post.{Post, Post_apply, Keeps, Keeps-bind, Keeps-if, Keeps-pure}
use skc_library.KeyAgent.State.{Agent, Action}
use skc_library.KeyAgent.Database.{Gda}
use skc_library.KeyAgent.Stm.{stm_get_challenge}
use skc_library.KeyAgent.Session.{session_create}
use skc_library.KeyAgent.Load.{KeyloadDetails, loadkey_with_moduledata}
use skc_library.KeyAgent.WellFormed.{
  IsWellFormed, Stays, Stays-frame, Keeps-Stays, stays_rules, Post-Stays,
}
use skc_library.KeyAgent.WellFormed.Keys.{key_create-Preserves}
use skc_library.KeyAgent.WellFormed.Stms.{stm_get_challenge-Preserves}
use skc_library.KeyAgent.WellFormed.Sessions.{session_create-Preserves}
use skc_library.KeyAgent.WellFormed.Npms.{IsTame, loadkey_with_moduledata-Stays}
use skc_library.Kms.Server.{Server, Reply}
use skc_library.Kms.Wire.{Transfer, Challenge, Granted, fill_nonce, session_id_of}
use skc_library.Kms.Start.{
  refuse, send, explain_failure, create_session, take_grant, answer_status, answer_challenge, prove,
  nonce_or_fault, take_challenge, start_session,
}
use skc_library.Kms.Protocol.{
  create_key, key_with_id, key_under, take_key, take_denial, take_reply, attempt, npm_loadkey,
  npm_key_load, npm_register, kms_npm,
}

module _ {D W J : Type 0} (server : Server J W) where
  refuse-Stays : (x : NpmErrors) → Keeps (Unit {0}) Stays (refuse {D = D} server x)
  unfolding refuse
  refuse-Stays x = search stays_rules

  send-Stays :
      (url : Str) (headers : List Str) (post : Option (List ℕ))
      → Keeps (Unit {0}) Stays (send {D = D} server url headers post)
  unfolding send Post
  send-Stays url headers post = record {
    at = λ e a. record {
      kept = λ v. record { sessions = v.sessions; keys = v.keys; stms = v.stms };
    };
  }

  ruleset kms_rules = (stays_rules, refuse-Stays, send-Stays)

  module _ (gda : Gda W) (rid : Str) where
    session_create-Stays :
        (label sid : Str) (swk : List ℕ) (type : Str)
        → Keeps (Unit {0}) Stays (session_create {D = D} gda rid label sid swk type)
    session_create-Stays label sid swk type = record {
      at = λ e a. Post-Stays _ a (session_create-Preserves gda rid label sid swk type e a);
    }

    explain_failure-Stays :
        (made : Bool) → Keeps (Unit {0}) Stays (explain_failure {D = D} server made)
    unfolding explain_failure Post
    explain_failure-Stays made = record { at = λ e a. go (made || is_some e) e a }
      where
        go :
            (b : Bool) (e : GError) (a : Agent D W)
            → Post
                (Unit {0})
                (λ _ _ c. Stays a c)
                (if b then some (made, e, a) else some (false, some (npm_error invalid_status), a))
        go true e a = Stays-frame.same a
        go false e a = Stays-frame.same a

    take_grant-Stays :
        (c : Challenge) (g : Option Granted)
        → Keeps (Unit {0}) Stays (take_grant {D = D} server gda rid c g)
    unfolding take_grant create_session
    take_grant-Stays c none = refuse-Stays _
    take_grant-Stays c (some g) =
        search (stays_rules, session_create-Stays, explain_failure-Stays) depth 8

    answer_status-Stays :
        (c : Challenge) (r : Reply)
        → Keeps (Unit {0}) Stays (answer_status {D = D} server gda rid c r)
    unfolding answer_status
    answer_status-Stays c r = search (kms_rules, take_grant-Stays) depth 8

    answer_challenge-Stays :
        (c : Challenge) (quote : Option (List ℕ))
        → Keeps (Unit {0}) Stays (answer_challenge {D = D} server gda rid c quote)
    unfolding answer_challenge
    answer_challenge-Stays c none = search stays_rules
    answer_challenge-Stays c (some quote) = search (kms_rules, answer_status-Stays) depth 8

    take_challenge-Stays :
        (c : Option Challenge) → Keeps (Unit {0}) Stays (take_challenge {D = D} server gda rid c)
    unfolding take_challenge nonce_or_fault prove
    take_challenge-Stays none = refuse-Stays _
    take_challenge-Stays (some c) =
        Keeps-if Stays-frame _ _ _
          (proved (fill_nonce server.stack (server.base64.decode c.session_id)))
          (Keeps-pure Stays-frame false)
      where
        challenged :
            (nonce : List ℕ)
            → Keeps (Unit {0}) Stays (stm_get_challenge {D = D} {W = W} rid nonce c.type)
        challenged nonce = Keeps-Stays _ (stm_get_challenge-Preserves rid nonce c.type)

        proved :
            (o : Option (List ℕ))
            → Keeps (Unit {0}) Stays (nonce_or_fault {D = D} server gda rid c o)
        proved none = search stays_rules
        proved (some nonce) = Keeps-bind Stays-frame _ _ (challenged nonce) λ answer.
            Keeps-if Stays-frame answer.0 _ _ (answer_challenge-Stays c answer.1)
              (search stays_rules)

    start_session-Stays :
        (transfer : J) → Keeps (Unit {0}) Stays (start_session {D = D} server gda rid transfer)
    unfolding start_session
    start_session-Stays transfer = take_challenge-Stays _

  module _ (gda : Gda W) (details : KeyloadDetails) where
    key_under-Stays :
        (t : Transfer) (tokens : Option (List Str))
        → Keeps (Unit {0}) Stays (key_under {D = D} server gda details t tokens)
    unfolding key_under create_key key_with_id
    key_under-Stays t none = refuse-Stays _
    key_under-Stays t (some tokens) = with_id (session_id_of tokens)
      where
        with_id :
            (o : Option (Option Str))
            → Keeps (Unit {0}) Stays (key_with_id {D = D} server gda details t o)
        with_id none = search stays_rules
        with_id (some none) = refuse-Stays _
        with_id (some (some id)) =
            Keeps-bind Stays-frame _ _ (Keeps-Stays _ (key_create-Preserves gda _ _ _ _))
              λ q. search stays_rules

    take_key-Stays :
        (headers : List Str) (t : Option Transfer)
        → Keeps (Unit {0}) Stays (take_key {D = D} server gda details headers t)
    unfolding take_key
    take_key-Stays headers none = refuse-Stays _
    take_key-Stays headers (some t) = key_under-Stays t _

    module _ (retry : Action D W Bool) (again : Keeps (Unit {0}) Stays retry) where
      take_denial-Stays :
          (j : J) (o : Option (Str × Str))
          → Keeps (Unit {0}) Stays (take_denial server gda details j retry o)
      unfolding take_denial
      take_denial-Stays j none = refuse-Stays _
      take_denial-Stays j (some (status, type)) =
          Keeps-if Stays-frame _ _ _
            (Keeps-bind Stays-frame _ _ (start_session-Stays gda details.request_id j)
              λ started. Keeps-if Stays-frame started _ _ again (Keeps-pure Stays-frame false))
            (Keeps-pure Stays-frame false)

      attempt-Stays : Keeps (Unit {0}) Stays (attempt server gda details retry)
      unfolding attempt take_reply
      attempt-Stays = search (kms_rules, take_denial-Stays, take_key-Stays) depth 16

    npm_loadkey-Stays :
        (fuel tries : ℕ)
        → Keeps (Unit {0}) Stays (npm_loadkey {D = D} server gda details fuel tries)
    unfolding npm_loadkey
    npm_loadkey-Stays zero tries = search stays_rules
    npm_loadkey-Stays (suc fuel) tries =
        Keeps-if Stays-frame _ _ _ (refuse-Stays _)
          (attempt-Stays _ (npm_loadkey-Stays fuel (suc tries)))

  kms_npm-IsTame : (gda : Gda W) → IsTame (kms_npm {D = D} server gda)
  unfolding kms_npm npm_register npm_key_load
  kms_npm-IsTame gda = record {
    registers = λ url. search kms_rules depth 6;
    loads = λ details. npm_loadkey-Stays gda details _ 0;
  }

  -- A key that is asked for through the key server's module, with a reply of any content at each
  -- request: where the load comes to an end, a state that was well formed still is, with the keys
  -- and the sessions that it has added.
  pub loadkey_with_moduledata-kms_npm :
      (gda : Gda W) (random_int : W → ℕ × W) (url : Str) (md : Option D) (x : Bool) (e e' : GError)
      (a b : Agent D W)
      → IsWellFormed a
      → loadkey_with_moduledata random_int (kms_npm server gda ∷ []) url md e a ≡ some (x, e', b)
      → IsWellFormed b
  loadkey_with_moduledata-kms_npm gda random_int url md x e e' a b v returned =
      (Post_apply _ (λ _ _ c. Stays a c) _
          ((loadkey_with_moduledata-Stays random_int (kms_npm server gda ∷ []) url md
              (kms_npm-IsTame gda, tt)).at
            e a)
          returned).kept
        v
