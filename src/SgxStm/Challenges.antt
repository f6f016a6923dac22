-- ===== src/SgxStm/Challenges.antt =====
-- A challenge that is reported is there.
use skc_library.Base.{
  ℕ, ◌≡◌, refl, ap, Bool, true, Option, none, some, List, Str, arith, is_some, subst,
}
use skc_library.Types.{GError, Call}
use skc_library.Details.{ChallengeDetails, ChallengeRequest, LaunchPolicy}
use skc_library.SgxStm.{no_callback, challenge_outcome, ask_api, policy_of, stm_create_challenge}

module _ {W : Type 0} where
  -- TRUE without an error comes with a challenge.
  abbrev Sound : (Bool × Option (List ℕ)) × GError × W → Type 0
  Sound r = r.0.0 ≡ true → r.1 ≡ none → is_some r.0.1 ≡ true

  outcome-Sound : (r : (Bool × Option (List ℕ)) × GError × W) → Sound (challenge_outcome r)
  unfolding challenge_outcome
  outcome-Sound ((ret, none), none, w) = λ h k. absurd (ground (arith, h))
  outcome-Sound ((ret, none), some e, w) = λ h k. absurd (ground (arith, k))
  outcome-Sound ((ret, some c), e, w) = λ h k. refl

module _ {D W : Type 0} where
  asked-Sound :
      (policy : Option LaunchPolicy) (attestation : Str)
      (cb : ChallengeDetails D → ChallengeRequest → Call W (Bool × Option (List ℕ)))
      (details : ChallengeDetails D) (e : GError) (w : W)
      → Sound (ask_api policy attestation cb details e w)
  unfolding ask_api no_callback
  asked-Sound none attestation cb details e w = λ h k. absurd (ground (arith, h))
  asked-Sound (some policy) attestation cb details e w = outcome-Sound (cb details _ e w)

  -- Whatever the API module's callback does, a challenge request that returns TRUE and leaves no
  -- error has a challenge.
  pub stm_create_challenge-is_some :
      (policy attestation : Str)
      (cb : Option (ChallengeDetails D → ChallengeRequest → Call W (Bool × Option (List ℕ))))
      (details : ChallengeDetails D) (e : GError) (w w' : W) (challenge : Option (List ℕ))
      → stm_create_challenge policy attestation cb details e w ≡ ((true, challenge), none, w')
      → is_some challenge ≡ true
  unfolding stm_create_challenge no_callback
  stm_create_challenge-is_some policy attestation none details e w w' challenge h =
      absurd (ground (arith, ap (λ r. r.0.0) h))
  stm_create_challenge-is_some policy attestation (some cb) details e w w' challenge h =
      subst Sound h (asked-Sound (policy_of policy) attestation cb details e w) refl refl
