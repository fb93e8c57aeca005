-- ===== src/TwoFactor/Enrolment.antt =====
-- src/two-factor/TwoFactor.ts: starting, confirming and ending an enrolment. The key that is handed
-- out is its bytes here; the base32 text and the URI are spellings of it.
use effect_auth.Prelude.{
  ℕ, ◌+◌, Bool, true, false, Option, none, some, List, [], ◌∷◌, Text, codes, leb, length,
  if◌then◌else◌,
}
use effect_auth.Runtime.{
  User, Auth, TotpEnrolment, of_text, of_number, invalid_code, totp_not_enrolled,
  totp_already_enrolled, pure, fail, now, generate_token, from_option, ◌>>=◌, ◌>>◌,
}
use effect_auth.Prelude.Int.{ℤ}
use effect_auth.Totp
use effect_auth.TwoFactor.Store
use effect_auth.TwoFactor.Devices
use effect_auth.TwoFactor.Service.{
  Settings, Platform, StartedEnrolment, lift, publish, active_of, secret_of, check_options,
  new_recovery_codes, secret_bytes, totp_authenticator_type,
}

abbrev pub pending_of : Option TotpEnrolment → Auth TotpEnrolment
pending_of none = fail totp_not_enrolled
pending_of (some enrolment) =
    if Store.is_pending enrolment then pure enrolment else fail totp_already_enrolled

module _ (settings : Settings) (platform : Platform) where
  unfoldable pub start_enrolment : User → Auth StartedEnrolment
  start_enrolment user = do
    drawn ← generate_token
    nonce ← generate_token
    at ← now
    let bytes = platform.random_bytes secret_bytes drawn
    stored ← Store.upsert_pending_totp (record {
      user_id = user.id;
      secret_ciphertext = platform.encrypt nonce bytes user.id;
      verified_at = none;
      last_used_step = none;
      created_at = at;
    })
    row ← from_option stored totp_already_enrolled
    pure (record { secret = bytes; expires_at = row.created_at + settings.enrolment_ttl })

  -- What a proved code does: the row is activated and, with it, the step is used.
  unfoldable pub activate : User → ℕ → Option ℤ → Auth (List Text)
  activate user at matched = do
    step ← from_option matched invalid_code
    confirmed ← Store.confirm_totp user.id at step
    active ← from_option confirmed totp_already_enrolled
    printed ← new_recovery_codes settings platform user.id
    forgotten ← Devices.delete_devices user.id
    publish (codes "FactorEnrolled") user.id (
        (codes "factor", of_text totp_authenticator_type)
        ∷ (codes "recoveryCodes", of_number (length printed))
        ∷ (codes "trustedDevicesRevoked", of_number forgotten)
        ∷ [])
    pure printed

  -- A pending enrolment is refused once its time has passed, and otherwise costs an attempt.
  unfoldable pub prove : User → Text → TotpEnrolment → ℕ → Auth (List Text)
  prove user code enrolment at =
      if leb (enrolment.created_at + settings.enrolment_ttl) at then fail totp_not_enrolled else (do
        platform.spend_attempt user.id
        secret ← secret_of settings platform enrolment
        matched ←
            lift
              (Totp.verify platform.sign (check_options settings platform enrolment secret code at))
        activate user at matched)

  unfoldable pub confirm_enrolment : User → Text → Auth (List Text)
  confirm_enrolment user code = do
    enrolment ← Store.find_totp user.id
    pending ← pending_of enrolment
    at ← now
    prove user code pending at

  abbrev pub require_removed : Bool → Auth (Unit {0})
  require_removed true = pure tt
  require_removed false = fail totp_not_enrolled

  unfoldable pub disable : User → Auth (Unit {0})
  disable user = do
    removed ← Store.delete_totp user.id
    require_removed removed
    forgotten ← Store.delete_recovery_codes user.id
    devices ← Devices.delete_devices user.id
    publish (codes "FactorRemoved") user.id (
        (codes "factor", of_text totp_authenticator_type)
        ∷ (codes "recoveryCodes", of_number forgotten)
        ∷ (codes "trustedDevicesRevoked", of_number devices)
        ∷ [])

  unfoldable pub regenerate_recovery_codes : User → Auth (List Text)
  regenerate_recovery_codes user = do
    enrolment ← Store.find_totp user.id
    active ← from_option (active_of enrolment) totp_not_enrolled
    printed ← new_recovery_codes settings platform user.id
    devices ← Devices.delete_devices user.id
    publish (codes "RecoveryCodesRegenerated") user.id (
        (codes "count", of_number (length printed))
        ∷ (codes "trustedDevicesRevoked", of_number devices)
        ∷ [])
    pure printed
