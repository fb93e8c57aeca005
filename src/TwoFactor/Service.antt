-- ===== src/TwoFactor/Service.antt =====
-- src/two-factor/TwoFactor.ts: enrolling a factor, checking one, and what spending one costs.
-- What the plugin takes from the platform is a parameter: the MAC, the cipher, the random bytes
-- that are drawn by the world's source, and the keyed rate limit, an operation in the same
-- world. The message after a recovery and its failures are not modelled: nobody sees them.
use effect_auth.Prelude.{
  ℕ, ◌*◌, Bool, true, false, ◌&&◌, ◌||◌, Option, none, some, List, [], ◌∷◌, ◌++◌, Text, nat_eq,
  codes, leb, ◌==◌, map, if◌then◌else◌,
}
use effect_auth.Prelude.Int.{ℤ}
use effect_auth.Assurance.{possession}
use effect_auth.Runtime.{
  Auth, Result, TotpEnrolment, RecoveryCode, Datum, invalid_code, defect, plugin_event, pure, fail,
  now, generate_token, generate_id, from_option, publish_safely, ◌>>=◌, ◌>>◌,
}
use effect_auth.Sessions.{Evidence}
use effect_auth.Totp
use effect_auth.Totp.{Algorithm}
use effect_auth.TwoFactor.Store
use effect_auth.TwoFactor.Codes

abbrev pub two_factor_plugin : Text
two_factor_plugin = codes "two-factor"

abbrev pub totp_authenticator_type : Text
totp_authenticator_type = codes "totp"

abbrev pub totp_method : Text
totp_method = codes "totp"

abbrev pub recovery_code_method : Text
recovery_code_method = codes "recoveryCode"

abbrev pub totp_evidence : Evidence
totp_evidence = record {
  method = totp_method;
  factor = possession;
  phishing_resistant = false;
  restricted = false;
  user_verified = none;
  completed_at = none;
}

abbrev pub recovery_code_evidence : Evidence
recovery_code_evidence = record totp_evidence { method = recovery_code_method }

abbrev pub recovery_code_hash_context : Text
recovery_code_hash_context = codes "effect-auth/two-factor/recovery-code/v1" ++ 10 ∷ []

abbrev pub secret_bytes : ℕ
secret_bytes = 20

-- `\s` and the dash.
abbrev pub is_gap : ℕ → Bool
is_gap c =
    (leb 9 c && leb c 13)
    || c == 32
    || c == 45
    || c == 160
    || c == 5760
    || (leb 8192 c && leb c 8202)
    || c == 8232
    || c == 8233
    || c == 8239
    || c == 8287
    || c == 12288
    || c == 65279

unfoldable pub digits_of : Text → Text
digits_of [] = []
digits_of (c ∷ code) = let rest = digits_of code in if is_gap c then rest else c ∷ rest

pub record Settings : Type 0 where
  pub window : ℕ
  pub period : ℕ
  pub digits : ℕ
  pub algorithm : Algorithm
  pub enrolment_ttl : ℕ
  pub pending_auth_ttl : ℕ
  pub recovery_code_count : ℕ
  pub low_recovery_codes : ℕ

pub record Platform : Type 0 where
  pub sign : Algorithm → List ℕ → List ℕ → List ℕ
  -- `Hmac.sign` and base64url
  pub digest : Text → Text
  -- `AuthCipher`, with the nonce that it draws and the user as additional data
  pub encrypt : Text → List ℕ → Text → Text
  pub decrypt : Text → Text → Option (List ℕ)
  -- as many random bytes as asked for, of what the source answered
  pub random_bytes : ℕ → Text → List ℕ
  -- `toUpperCase` beyond ASCII
  pub upper_other : ℕ → Text
  -- `consumeKeyed` of the account's bucket
  pub spend_attempt : Text → Auth (Unit {0})

pub data Factor : Type 0 where
  totp_code recovery_code : Text → Factor

pub record StartedEnrolment : Type 0 where
  pub secret : List ℕ
  pub expires_at : ℕ

abbrev pub lift : {A : Type 0} → Result A → Auth A
lift r w = (r, w)

abbrev pub publish : Text → Text → List (Text × Datum) → Auth (Unit {0})
publish event user_id facts = publish_safely (plugin_event two_factor_plugin event user_id facts)

-- The enrolment, unless it is not there or was never confirmed.
abbrev pub active_of : Option TotpEnrolment → Option TotpEnrolment
active_of none = none
active_of (some enrolment) = if Store.is_pending enrolment then none else some enrolment

module _ (settings : Settings) (platform : Platform) where
  -- A ciphertext that cannot be read is a defect.
  abbrev pub secret_of : TotpEnrolment → Auth (List ℕ)
  secret_of enrolment =
      from_option (platform.decrypt enrolment.secret_ciphertext enrolment.user_id)
        (defect (codes "CipherError"))

  unfoldable pub hash_recovery_code : Text → Text
  hash_recovery_code code = platform.digest (recovery_code_hash_context ++ code)

  abbrev pub check_options : TotpEnrolment → List ℕ → Text → ℕ → Totp.VerifyOptions
  check_options enrolment secret code at = record {
    secret = secret;
    code = digits_of code;
    now = at;
    window = some settings.window;
    last_used_step = enrolment.last_used_step;
    period = some settings.period;
    digits = some settings.digits;
    algorithm = some settings.algorithm;
  }

  abbrev pub evidence_if : Evidence → Bool → Auth Evidence
  evidence_if evidence true = pure evidence
  evidence_if evidence false = fail invalid_code

  -- The step that matched is used up, or was by another request.
  abbrev pub spend_step : Text → Option ℤ → Auth Evidence
  spend_step user_id none = fail invalid_code
  spend_step user_id (some step) = do
    consumed ← Store.consume_totp_step user_id step
    evidence_if totp_evidence consumed

  -- The rest of a check, for an active enrolment.
  unfoldable pub check_totp : Text → TotpEnrolment → Text → Auth Evidence
  check_totp user_id enrolment code = do
    secret ← secret_of enrolment
    at ← now
    matched ← lift (Totp.verify platform.sign (check_options enrolment secret code at))
    spend_step user_id matched

  unfoldable pub check_factor : Text → Factor → Auth Evidence
  check_factor user_id (recovery_code code) = do
    at ← now
    spent ←
        Store.consume_recovery_code user_id
          (hash_recovery_code (Codes.normalise platform.upper_other code)) at
    evidence_if recovery_code_evidence spent
  check_factor user_id (totp_code code) = do
    enrolment ← Store.find_totp user_id
    active ← from_option (active_of enrolment) invalid_code
    check_totp user_id active code

  -- The rows of fresh codes, each with an id and a moment of its own.
  code_rows : Text → List Text → Auth (List RecoveryCode)
  code_rows user_id [] = pure []
  code_rows user_id (code ∷ rest) = do
    id ← generate_id
    at ← now
    rows ← code_rows user_id rest
    pure (
        record {
          id = id;
          user_id = user_id;
          code_hash = hash_recovery_code code;
          used_at = none;
          created_at = at;
        }
        ∷ rows)

  unfoldable pub new_recovery_codes : Text → Auth (List Text)
  unfolding code_rows
  new_recovery_codes user_id = do
    drawn ← generate_token
    let minted =
        Codes.generate settings.recovery_code_count
          (platform.random_bytes (settings.recovery_code_count * Codes.code_length) drawn)
    rows ← code_rows user_id minted
    Store.replace_recovery_codes user_id rows
    pure (map Codes.format minted)
