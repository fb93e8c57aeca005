-- ===== src/Passwords.antt =====
-- src/domain/Passwords.ts: checking, resetting and changing a password. The hasher of
-- src/crypto/PasswordHasher.ts is a parameter, with the salt that it draws from the world's source.
-- A message that is sent is a mail of the world; whether it arrives does not matter to the caller.
pub mod Entry
pub mod Stored
pub mod Replaced
pub mod Resets
pub mod SignIns
pub mod Enrolled
pub mod SignUps
mod Tests
use effect_auth.Prelude.{
  text_eq, List, ℕ, ◌-◌, Bool, true, false, ◌&&◌, ◌||◌, Option, none, some, [], ◌∷◌, ◌++◌, Text,
  codes, length, ltb, leb, ◌==◌, drop, if◌then◌else◌,
}
use effect_auth.Assurance.{knowledge}
use effect_auth.Runtime.{
  World, User, Session, Account, Mail, email_mail, reset_mail, Auth, Result, Error, ok, err,
  too_short, too_long, password_policy_violation, password_hash_failed, invalid_credentials,
  invalid_token, password_already_set, session_revoked, everything, password_changed,
  password_reset_requested, email_verified_event, account_linked, pure, fail, now, generate_id,
  generate_token, from_option, publish_safely, ◌>>=◌, ◌>>◌,
}
use effect_auth.Sql.{Dialect}
use effect_auth.Sessions.{Evidence, CreatedSession}
use effect_auth.Sessions
use effect_auth.Sessions.Service
use effect_auth.Verifications.{
  Base64, TokenPurpose, ahead, plain_purpose, issue, claim, retire_user_subject_tokens,
}
use effect_auth.SignIn.{SignInRequest}
use effect_auth.Users
use effect_auth.Users.{normalize_email, transaction}
use effect_auth.Accounts
use effect_auth.Accounts.Store.{credential_issuer}

abbrev pub credential_provider_id : Text
credential_provider_id = codes "credential"

abbrev pub absent_user_id : Text
absent_user_id = codes "00000000-0000-0000-0000-000000000000"

abbrev pub dummy_password : Text
dummy_password = codes "effect-auth::timing-defence::not-a-real-password"

abbrev pub password_method : Text
password_method = codes "password"

abbrev pub password_evidence : Evidence
password_evidence = record {
  method = password_method;
  factor = knowledge;
  phishing_resistant = false;
  restricted = false;
  user_verified = none;
  completed_at = none;
}

-- Hashing a password with a salt and comparing one with a stored hash, each of which may fail.
pub record PasswordHasher : Type 0 where
  pub hash : Text → Text → Option Text
  pub verify : Text → Text → Option Bool

pub record PasswordConfig : Type 0 where
  pub min_password_length : ℕ
  pub max_password_length : ℕ
  pub require_email_verification : Bool
  pub auto_sign_in : Bool
  pub password_reset_ttl : ℕ
  pub email_verification_ttl : ℕ

pub record SignUpOptions : Type 0 where
  pub email : Text
  pub password : Text
  pub request : SignInRequest

pub record SignUpResult : Type 0 where
  pub user : User
  pub session : Option CreatedSession

pub record SignInOptions : Type 0 where
  pub email : Text
  pub password : Text
  pub current : Option (Session × User)
  pub request : SignInRequest

pub record ChangePasswordOptions : Type 0 where
  pub user_id : Text
  pub current_password : Text
  pub new_password : Text
  pub revoke_other_sessions : Option Bool
  pub current_session_id : Option Text

abbrev pub email_verify_purpose : TokenPurpose (Unit {0})
email_verify_purpose = plain_purpose (codes "email-verify")

abbrev pub password_reset_purpose : TokenPurpose (Unit {0})
password_reset_purpose = plain_purpose (codes "password-reset")

unfoldable pub check_policy : PasswordConfig → Text → Auth (Unit {0})
check_policy config password =
    if ltb (length password) config.min_password_length
    then fail
        (password_policy_violation too_short config.min_password_length config.max_password_length)
    else if ltb config.max_password_length (length password)
    then fail
        (password_policy_violation too_long config.min_password_length config.max_password_length)
    else pure tt

unfoldable pub hash_password : PasswordHasher → Text → Auth Text
hash_password hasher password = do
  salt ← generate_token
  from_option (hasher.hash password salt) password_hash_failed

unfoldable pub verify_hash : PasswordHasher → Text → Text → Auth Bool
verify_hash hasher password hash = from_option (hasher.verify password hash) password_hash_failed

unfoldable pub credential_account_for : Text → Auth (Option Account)
credential_account_for user_id = Accounts.Store.find_by_issuer_account_id credential_issuer user_id

unfoldable pub create_credential_account : Text → Text → Auth Account
create_credential_account user_id password_hash = do
  id ← generate_id
  created_at ← now
  updated_at ← now
  Accounts.Store.create (record {
    id = id;
    issuer = credential_issuer;
    account_id = user_id;
    provider_id = credential_provider_id;
    user_id = user_id;
    password_hash = some password_hash;
    created_at = created_at;
    updated_at = updated_at;
  })

abbrev pub hash_of : Option Account → Option Text
hash_of none = none
hash_of (some account) = account.password_hash

abbrev pub or_dummy : Text → Option Text → Text
or_dummy dummy_hash none = dummy_hash
or_dummy dummy_hash (some hash) = hash

abbrev pub is_set : Option Text → Bool
is_set none = false
is_set (some hash) = true

abbrev pub id_or_absent : Option User → Text
id_or_absent none = absent_user_id
id_or_absent (some user) = user.id

-- `isUndeliverable`: an address under the reserved domain.
abbrev pub is_undeliverable : (ℕ → Text) → Text → Bool
is_undeliverable lower_other address =
    let spelled = normalize_email lower_other address in
    leb 8 (length spelled) && drop (length spelled - 8) spelled == codes ".invalid"

abbrev pub deliver : (ℕ → Text) → Text → Mail → Auth (Unit {0})
deliver lower_other address mail w = (
  ok tt,
  if is_undeliverable lower_other address then w else record w { mails = w.mails ++ mail ∷ [] },
)

abbrev pub unless_unique : {A : Type 0} → Error → Result A × World → Result A × World
unless_unique instead (ok a, w) = (ok a, w)
unless_unique instead (err e, w) = (err (if Accounts.is_unique_violation e then instead else e), w)

-- The write of a new hash, in a row of its own where there is none to update.
abbrev pub create_unless : Text → Text → Option Account → Auth (Unit {0})
create_unless user_id password_hash (some account) = pure tt
create_unless user_id password_hash none = do
  Users.lock_user_row user_id
  create_credential_account user_id password_hash
  pure tt

unfoldable pub replace_password : Text → Text → Auth ℕ
replace_password user_id password_hash = do
  updated ← Accounts.Store.update_password_hash user_id password_hash
  create_unless user_id password_hash updated
  retire_user_subject_tokens user_id
  Sessions.Store.delete_by_user_id user_id

module _ (lower_other : ℕ → Text) (hasher : PasswordHasher) (dummy_hash : Text)
    (settings : PasswordConfig) (base64 : Base64) (hash_token : Text → Text)
    (dialect : Dialect) where
  unfoldable pub verify_password : Text → Text → Auth Bool
  verify_password user_id password = do
    account ← credential_account_for user_id
    matches ← verify_hash hasher password (or_dummy dummy_hash (hash_of account))
    pure (is_set (hash_of account) && matches)

  abbrev pub require_match : Bool → Auth Evidence
  require_match true = pure password_evidence
  require_match false = fail invalid_credentials

  unfoldable pub reauthenticate : Text → Text → Auth Evidence
  reauthenticate user_id password = verify_password user_id password >>= require_match

  unfoldable pub send_verification_to : User → Auth (Unit {0})
  send_verification_to user = do
    issued ← issue base64 hash_token (record {
      purpose = email_verify_purpose;
      subject = normalize_email lower_other user.email;
      ttl = ahead settings.email_verification_ttl;
      payload = tt;
      secret = none;
    })
    deliver lower_other user.email (email_mail user.email issued.token)

  abbrev pub send_unless_verified : Option User → Auth (Unit {0})
  send_unless_verified none = pure tt
  send_unless_verified (some user) =
      if user.email_verified then pure tt else send_verification_to user

  unfoldable pub send_verification_email : Text → Auth (Unit {0})
  send_verification_email email =
      Users.find_by_email (normalize_email lower_other email) >>= send_unless_verified

  unfoldable pub verify_email : Text → Auth User
  verify_email token = do
    claimed ← claim base64 hash_token dialect email_verify_purpose token
    found ← Users.find_by_email (normalize_email lower_other claimed.subject)
    user ← from_option found invalid_token
    updated ← Users.update user.id (record { email = none; email_verified = some true })
    verified ← from_option updated invalid_token
    publish_safely (email_verified_event verified.id)
    pure verified

  abbrev pub send_reset : Option User → Auth (Unit {0})
  send_reset none = pure tt
  send_reset (some user) = do
    issued ← issue base64 hash_token (record {
      purpose = password_reset_purpose;
      subject = user.id;
      ttl = ahead settings.password_reset_ttl;
      payload = tt;
      secret = none;
    })
    deliver lower_other user.email (reset_mail user.email issued.token)
    publish_safely (password_reset_requested user.id)

  unfoldable pub request_reset : Text → Auth (Unit {0})
  request_reset email = Users.find_by_email (normalize_email lower_other email) >>= send_reset

  unfoldable pub reset_password : Text → Text → Auth (Unit {0})
  reset_password token new_password = do
    check_policy settings new_password
    claimed ← claim base64 hash_token dialect password_reset_purpose token
    found ← Users.find_by_id claimed.subject
    from_option found invalid_token
    password_hash ← hash_password hasher new_password
    revoked ← transaction (replace_password claimed.subject password_hash)
    publish_safely (session_revoked claimed.subject none everything revoked)
    publish_safely (password_changed claimed.subject true)

  -- `revokeOtherSessions !== false`
  abbrev pub sign_out_others : Text → Option Bool → Option Text → Auth (Unit {0})
  sign_out_others user_id (some false) current = pure tt
  sign_out_others user_id _ none = Service.revoke_all user_id >> pure tt
  sign_out_others user_id _ (some session_id) = Service.revoke_others user_id session_id >> pure tt

  unfoldable pub change_password : ChangePasswordOptions → Auth (Unit {0})
  change_password options = do
    check_policy settings options.new_password
    matches ← verify_password options.user_id options.current_password
    require_match matches
    password_hash ← hash_password hasher options.new_password
    updated ← Accounts.Store.update_password_hash options.user_id password_hash
    from_option updated invalid_credentials
    retire_user_subject_tokens options.user_id
    sign_out_others options.user_id options.revoke_other_sessions options.current_session_id
    publish_safely (password_changed options.user_id false)

  -- The first password of an account that has none.
  unfoldable pub created : Text → Text → Auth Account
  created user_id password_hash w = unless_unique password_already_set (
      transaction (Users.lock_user_row user_id >> create_credential_account user_id password_hash)
        w)

  abbrev pub updated_or_created : Text → Text → Option Account → Auth Account
  updated_or_created user_id password_hash none = created user_id password_hash
  updated_or_created user_id password_hash (some account) = pure account

  abbrev pub written : Text → Text → Option Account → Auth Account
  written user_id password_hash none = created user_id password_hash
  written user_id password_hash (some account) =
      Accounts.Store.update_password_hash user_id password_hash
      >>= updated_or_created user_id password_hash

  unfoldable pub set_password : Text → Text → Auth (Unit {0})
  set_password user_id new_password = do
    check_policy settings new_password
    existing ← credential_account_for user_id
    if is_set (hash_of existing) then fail password_already_set else (do
      password_hash ← hash_password hasher new_password
      account ← written user_id password_hash existing
      publish_safely (account_linked user_id account.id account.provider_id account.issuer))
