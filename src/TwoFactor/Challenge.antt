-- ===== src/TwoFactor/Challenge.antt =====
-- src/two-factor/TwoFactor.ts: answering a challenge, as a step-up of a live session or as the
-- second half of an interrupted sign-in. The message that a recovery code sends is not part of a
-- world, and its failure is dropped.
use effect_auth.Prelude.{
  ℕ, ◌-◌, Bool, true, false, Option, none, some, List, [], ◌∷◌, ◌++◌, Text, codes, leb, map,
  if◌then◌else◌,
}
use effect_auth.Assurance.{AuthenticationMethod}
use effect_auth.Runtime.{
  World, User, Session, Auth, Result, Error, of_number, ok, err, invalid_token, policy_refused,
  defect, pure, fail, now, from_option, ◌>>=◌, ◌>>◌,
}
use effect_auth.Sql.{Dialect}
use effect_auth.Sessions.{SessionConfig, Evidence}
use effect_auth.Sessions.Service
use effect_auth.Users.{find_by_id}
use effect_auth.Verifications.{
  Base64, Codec, TokenPurpose, Claimed, ahead, purpose, issue, claim, decode_subject_token,
}
use effect_auth.SignIn.{
  CompleteOptions, SignInResult, Hooks, Decider, plugin, complete, owed, complete_sign_in,
}
use effect_auth.TwoFactor.Store
use effect_auth.TwoFactor.Devices
use effect_auth.TwoFactor.Service.{
  Settings, Platform, Factor, totp_code, recovery_code, publish, check_factor,
}

abbrev pub mfa_required_code : Text
mfa_required_code = codes "mfa_required"

pub record PendingAuthPayload : Type 0 where
  pub user_id : Text
  pub evidence : List AuthenticationMethod
  pub remember_me : Bool
  pub method : Text

pub data ChallengeSubject : Type 0 where
  session_subject : Session → User → ChallengeSubject
  pending_subject : Text → ChallengeSubject

pub record VerifyOptions : Type 0 where
  pub subject : ChallengeSubject
  pub factor : Factor
  pub ip_address : Option Text
  pub user_agent : Option Text

pub record VerifyResult : Type 0 where
  pub session : Session
  pub user : User
  pub token : Text
  pub remember_me : Bool

-- An entry of the log is evidence that says when it was completed.
abbrev pub as_evidence : AuthenticationMethod → Evidence
as_evidence entry = record {
  method = entry.method;
  factor = entry.factor;
  phishing_resistant = entry.phishing_resistant;
  restricted = entry.restricted;
  user_verified = entry.user_verified;
  completed_at = some entry.completed_at;
}

abbrev pub is_defect : Error → Bool
is_defect (defect cause) = true
is_defect _ = false

-- `Effect.result`: what failed goes on to the handler, and a defect does not.
abbrev pub on_failure :
    {A : Type 0} → (Error → Auth (Unit {0})) → Result A × World → Result A × World
on_failure handle (ok a, w) = (ok a, w)
on_failure handle (err e, w) = if is_defect e then (err e, w) else (handle e >> fail e) w

module _ (settings : Settings) (platform : Platform) where
  abbrev pub warn_if_low : User → ℕ → Auth (Unit {0})
  warn_if_low user remaining =
      if leb remaining settings.low_recovery_codes
      then publish (codes "RecoveryCodesLow") user.id
          ((codes "remaining", of_number remaining) ∷ [])
      else pure tt

  unfoldable pub after_recovery : User → Auth (Unit {0})
  after_recovery user = do
    devices ← Devices.delete_devices user.id
    remaining ← Store.count_recovery_codes user.id
    publish (codes "RecoveryCodeUsed") user.id (
        (codes "remaining", of_number remaining)
        ∷ (codes "trustedDevicesRevoked", of_number devices)
        ∷ [])
    warn_if_low user remaining

  abbrev pub settle : Factor → User → Auth (Unit {0})
  settle (recovery_code code) user = after_recovery user
  settle (totp_code code) user = pure tt

  module _ (base64 : Base64) (hash_token : Text → Text) (config : SessionConfig) (dialect : Dialect)
      (hooks : Hooks) (decide : Option Decider) (codec : Codec PendingAuthPayload) where
    abbrev pub pending_auth_purpose : TokenPurpose PendingAuthPayload
    pending_auth_purpose = purpose (codes "pending-auth") codec

    unfoldable pub reissue_pending : ℕ → Text → PendingAuthPayload → Auth (Unit {0})
    reissue_pending expires_at secret payload = do
      at ← now
      if leb expires_at at then pure tt else (do
        issue base64 hash_token (record {
          purpose = pending_auth_purpose;
          subject = payload.user_id;
          ttl = ahead (expires_at - at);
          payload = payload;
          secret = some secret;
        })
        pure tt)

    unfoldable pub verify_session : Session → User → Factor → Auth VerifyResult
    verify_session session user factor = do
      platform.spend_attempt user.id
      evidence ← check_factor settings platform user.id factor
      elevated ← Service.elevate hash_token session evidence
      settle factor user
      pure (record {
        session = elevated.session;
        user = user;
        token = elevated.token;
        remember_me = elevated.session.remember_me;
      })

    abbrev pub tried : Text → Factor → Auth Evidence
    tried user_id factor =
        platform.spend_attempt user_id >> check_factor settings platform user_id factor

    -- A wrong code costs an attempt and not the sign-in: the row goes back.
    unfoldable pub attempt : Claimed PendingAuthPayload → Text → Factor → Auth Evidence
    attempt claimed secret factor w =
        on_failure (λ _. reissue_pending claimed.verification.expires_at secret claimed.payload)
          (tried claimed.payload.user_id factor w)

    abbrev pub concluded : VerifyOptions → User → Bool → SignInResult → Auth VerifyResult
    concluded options user remember_me (owed challenge) = fail (policy_refused mfa_required_code)
    concluded options user remember_me (complete session person token) = do
      settle options.factor user
      pure (record { session = session; user = user; token = token; remember_me = remember_me })

    -- The evidence of both halves, under the name of what the first half signed in with.
    abbrev pub second_half : VerifyOptions → PendingAuthPayload → Evidence → User → CompleteOptions
    second_half options payload evidence user = record {
      user = user;
      source = plugin payload.method;
      evidence = map as_evidence payload.evidence ++ evidence ∷ [];
      current = none;
      request = record {
        remember_me = some payload.remember_me;
        ip_address = options.ip_address;
        user_agent = options.user_agent;
      };
    }

    unfoldable pub finish : VerifyOptions → PendingAuthPayload → Evidence → Auth VerifyResult
    finish options payload evidence = do
      found ← find_by_id payload.user_id
      user ← from_option found invalid_token
      result ←
          complete_sign_in hash_token config hooks decide
            (second_half options payload evidence user)
      concluded options user payload.remember_me result

    unfoldable pub verify_pending : VerifyOptions → Text → Auth VerifyResult
    verify_pending options token = do
      parts ← from_option (decode_subject_token base64 token) invalid_token
      claimed ← claim base64 hash_token dialect pending_auth_purpose token
      evidence ← attempt claimed parts.secret options.factor
      finish options claimed.payload evidence

    abbrev pub answered : VerifyOptions → ChallengeSubject → Auth VerifyResult
    answered options (session_subject session user) = verify_session session user options.factor
    answered options (pending_subject token) = verify_pending options token

    abbrev pub verify : VerifyOptions → Auth VerifyResult
    verify options = answered options options.subject
