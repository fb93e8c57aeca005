-- ===== src/TwoFactor/Decider.antt =====
-- src/two-factor/TwoFactor.ts: the decider that turns a first factor into a challenge. The
-- cookie that the request presents is a parameter; the cookie that a rotation sets is not part
-- of a world.
use effect_auth.Prelude.{
  ℕ, Bool, true, false, not, ◌&&◌, ◌||◌, ◌==◌, Option, none, some, List, [], ◌∷◌, Text, text_eq,
  codes, ltb, map, any, if◌then◌else◌,
}
use effect_auth.Assurance.{AuthenticationMethod, no_factor, factor_eq, is_aal2, derive_aal}
use effect_auth.Runtime.{Auth, TotpEnrolment, TrustedDevice, pure, now, generate_token, ◌>>=◌}
use effect_auth.Sessions.{Evidence, stamp_evidence}
use effect_auth.Verifications.{Base64, Codec, IssueOptions, Issued, ahead, purpose, issue}
use effect_auth.SignIn.{CompleteOptions, SignInDecision, proceed, challenge, method_of}
use effect_auth.TwoFactor.Store
use effect_auth.TwoFactor.Devices
use effect_auth.TwoFactor.Service.{Settings, Platform, totp_method, recovery_code_method, active_of}
use effect_auth.TwoFactor.Trust.{Seal, Opened, open_device, device_hash}
use effect_auth.TwoFactor.Challenge.{PendingAuthPayload}

abbrev pub challenge_kind : Text
challenge_kind = codes "two-factor"

abbrev pub is_own_method : Text → Bool
is_own_method method = method == totp_method || method == recovery_code_method

-- `factor: "none"` is no answer: the question was waived.
abbrev pub is_answer : AuthenticationMethod → Bool
is_answer entry = not (entry.factor == no_factor) && is_own_method entry.method

abbrev pub answered_here : List AuthenticationMethod → Bool
answered_here evidence = any is_answer evidence

abbrev pub factors_of : ℕ → List Text
factors_of remaining =
    if ltb 0 remaining then totp_method ∷ recovery_code_method ∷ [] else totp_method ∷ []

unfoldable pub factors_for : Text → Auth (List Text)
factors_for user_id = do remaining ← Store.count_recovery_codes user_id; pure (factors_of remaining)

abbrev pub belongs_to : Text → Option TrustedDevice → Bool
belongs_to user_id none = false
belongs_to user_id (some row) = row.user_id == user_id

-- `rememberMe !== false`
abbrev pub not_declined : Option Bool → Bool
not_declined none = true
not_declined (some b) = b

abbrev pub stamped : List Evidence → ℕ → List AuthenticationMethod
stamped evidence at = map (λ entry. stamp_evidence entry at) evidence

module _ (platform : Platform) (seal : Seal) (presented : Option Text) where
  -- The token is used up and replaced in one statement.
  unfoldable pub rotate : Text → Opened → Auth Bool
  rotate user_id opened = do
    next ← generate_token
    at ← now
    rotated ← Devices.use_device (device_hash platform opened.token) (device_hash platform next) at
    pure (belongs_to user_id rotated)

  abbrev pub spend_opened : Text → Option Opened → Auth Bool
  spend_opened user_id none = pure false
  spend_opened user_id (some opened) =
      if opened.user_id == user_id then rotate user_id opened else pure false

  abbrev pub opened_cookie : Option Text → Option Opened
  opened_cookie none = none
  opened_cookie (some value) = open_device seal value

  abbrev pub spend_trusted_device : Text → Auth Bool
  spend_trusted_device user_id = spend_opened user_id (opened_cookie presented)

module _ (settings : Settings) (platform : Platform) (seal : Seal) (base64 : Base64)
    (hash_token : Text → Text) (codec : Codec PendingAuthPayload) (presented : Option Text) where
  abbrev pub pending_payload : CompleteOptions → List AuthenticationMethod → PendingAuthPayload
  pending_payload options evidence = record {
    user_id = options.user.id;
    evidence = evidence;
    remember_me = not_declined options.request.remember_me;
    method = method_of options.source;
  }

  abbrev pub pending_issue :
      CompleteOptions → List AuthenticationMethod → IssueOptions PendingAuthPayload
  pending_issue options evidence = record {
    purpose = purpose (codes "pending-auth") codec;
    subject = options.user.id;
    ttl = ahead settings.pending_auth_ttl;
    payload = pending_payload options evidence;
    secret = none;
  }

  abbrev pub asked : List Text → Issued → SignInDecision
  asked available issued = challenge (record {
    kind = challenge_kind;
    available = available;
    token = issued.token;
    expires_at = issued.expires_at;
  })

  unfoldable pub ask : CompleteOptions → List AuthenticationMethod → Auth SignInDecision
  ask options evidence = do
    available ← factors_for options.user.id
    issued ← issue base64 hash_token (pending_issue options evidence)
    pure (asked available issued)

  abbrev pub unless_trusted :
      CompleteOptions → List AuthenticationMethod → Bool → Auth SignInDecision
  unless_trusted options evidence true = pure proceed
  unless_trusted options evidence false = ask options evidence

  abbrev pub unless_enrolled :
      CompleteOptions → List AuthenticationMethod → Option TotpEnrolment → Auth SignInDecision
  unless_enrolled options evidence none = pure proceed
  unless_enrolled options evidence (some enrolment) =
      spend_trusted_device platform seal presented options.user.id
      >>= unless_trusted options evidence

  abbrev pub decide_with : CompleteOptions → List AuthenticationMethod → Auth SignInDecision
  decide_with options evidence =
      if answered_here evidence
      then pure proceed
      else if is_aal2 (derive_aal evidence)
      then pure proceed
      else (Store.find_totp options.user.id >>= λ enrolment.
          unless_enrolled options evidence (active_of enrolment))

  unfoldable pub decide : CompleteOptions → Auth SignInDecision
  decide options = now >>= λ at. decide_with options (stamped options.evidence at)
