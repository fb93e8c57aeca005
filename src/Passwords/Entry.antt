-- ===== src/Passwords/Entry.antt =====
-- src/domain/Passwords.ts: signIn and signUp. The deployment's hooks are parameters.
use effect_auth.Prelude.{
  ℕ, Bool, true, false, not, ◌&&◌, Option, none, some, [], ◌∷◌, Text, text_eq, if◌then◌else◌,
}
use effect_auth.Runtime.{
  World, User, Auth, Result, ok, err, invalid_credentials, email_not_verified, user_already_exists,
  policy_refused, user_created, pure, fail, now, generate_id, publish_safely, ◌>>=◌, ◌>>◌,
}
use effect_auth.Sql.{Dialect}
use effect_auth.Sessions.{SessionConfig}
use effect_auth.Verifications.{Base64}
use effect_auth.SignIn.{
  CompleteOptions, SignInResult, Hooks, Decider, email_password, complete, owed, complete_sign_in,
}
use effect_auth.Users
use effect_auth.Users.{normalize_email, transaction}
use effect_auth.Accounts.{UserHooks, provision}
use effect_auth.Passwords.{
  password_method, password_evidence, PasswordHasher, PasswordConfig, SignUpOptions, SignUpResult,
  SignInOptions, check_policy, hash_password, verify_hash, credential_account_for,
  create_credential_account, hash_of, or_dummy, id_or_absent, unless_unique, send_verification_to,
}

module _ (lower_other : ℕ → Text) (hasher : PasswordHasher) (dummy_hash : Text)
    (settings : PasswordConfig) (base64 : Base64) (hash_token : Text → Text) (dialect : Dialect)
    (sessions : SessionConfig) (hooks : Hooks) (decide : Option Decider) where
  abbrev pub sign_in_options : SignInOptions → User → CompleteOptions
  sign_in_options options user = record {
    user = user;
    source = email_password;
    evidence = password_evidence ∷ [];
    current = options.current;
    request = options.request;
  }

  -- Every way of being wrong is one refusal.
  abbrev pub admitted : SignInOptions → Option User → Option Text → Bool → Auth SignInResult
  admitted options none stored matches = fail invalid_credentials
  admitted options (some user) none matches = fail invalid_credentials
  admitted options (some user) (some hash) false = fail invalid_credentials
  admitted options (some user) (some hash) true =
      if settings.require_email_verification && not user.email_verified
      then fail email_not_verified
      else complete_sign_in hash_token sessions hooks decide (sign_in_options options user)

  unfoldable pub sign_in : SignInOptions → Auth SignInResult
  sign_in options = do
    found ← Users.find_by_email (normalize_email lower_other options.email)
    account ← credential_account_for (id_or_absent found)
    matches ← verify_hash hasher options.password (or_dummy dummy_hash (hash_of account))
    admitted options found (hash_of account) matches

  module _ (user_hooks : UserHooks) where
    unfoldable pub enrol : Text → Text → Auth User
    enrol email password_hash = do
      id ← generate_id
      created_at ← now
      updated_at ← now
      user ←
          provision lower_other user_hooks
            (record { id = id; email = email; email_verified = false })
      create_credential_account user.id password_hash
      pure user

    -- A row that another request created first is an address that is taken.
    unfoldable pub enrolled : Text → Text → Auth User
    enrolled email password_hash w =
        unless_unique user_already_exists (transaction (enrol email password_hash) w)

    abbrev pub registered : User → SignUpResult
    registered user = record { user = user; session = none }

    abbrev pub sign_up_options : SignUpOptions → User → CompleteOptions
    sign_up_options options user = record {
      user = user;
      source = email_password;
      evidence = password_evidence ∷ [];
      current = none;
      request = options.request;
    }

    abbrev pub of_sign_in : User → SignInResult → SignUpResult
    of_sign_in user (owed c) = registered user
    of_sign_in user (complete session person token) = record {
      user = user;
      session = some (record { session = session; token = token });
    }

    -- A session that the policy refuses does not undo the registration.
    abbrev pub despite_policy : User → Result SignUpResult × World → Result SignUpResult × World
    despite_policy user (err (policy_refused code), w) = (ok (registered user), w)
    despite_policy user (r, w) = (r, w)

    abbrev pub start_session : SignUpOptions → User → Auth SignUpResult
    start_session options user w = despite_policy user (
        (complete_sign_in hash_token sessions hooks decide (sign_up_options options user)
            >>= λ result. pure (of_sign_in user result))
          w)

    abbrev pub welcome : SignUpOptions → User → Auth SignUpResult
    welcome options user =
        if settings.require_email_verification
        then (send_verification_to lower_other hasher dummy_hash settings base64 hash_token dialect
              user
            >> pure (registered user))
        else if settings.auto_sign_in
        then start_session options user
        else pure (registered user)

    abbrev pub unless_known : SignUpOptions → Option User → Auth SignUpResult
    unless_known options (some user) = fail user_already_exists
    unless_known options none = do
      password_hash ← hash_password hasher options.password
      user ← enrolled (normalize_email lower_other options.email) password_hash
      publish_safely (user_created user.id user.email user.email_verified password_method)
      welcome options user

    unfoldable pub sign_up : SignUpOptions → Auth SignUpResult
    sign_up options =
        check_policy settings options.password
        >> (Users.find_by_email (normalize_email lower_other options.email)
            >>= unless_known options)
