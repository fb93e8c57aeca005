-- ===== src/Passwords/SignIns.antt =====
-- What a sign-in by password has checked, and what it tells where it refuses.
use effect_auth.Prelude.{
  ℕ, suc, ◌≡◌, refl, ap, sym, Bool, true, false, not, ◌&&◌, Option, none, some, Text, head?, filter,
}
use effect_auth.Runtime.{World, User, Account, ok, err, err-ne-ok, invalid_credentials}
use effect_auth.Runtime.Steps.{ok_injective, world_of, persist-cases}
use effect_auth.Sql.{Dialect}
use effect_auth.Sessions.{SessionConfig}
use effect_auth.Verifications.{Base64}
use effect_auth.SignIn.{SignInResult, Hooks, Decider, complete_sign_in}
use effect_auth.Users
use effect_auth.Users.{normalize_email, find_email}
use effect_auth.Users.Transactions.{called}
use effect_auth.Passwords.Stored.{stored_hash}
use effect_auth.Accounts
use effect_auth.Accounts.Store.{credential_issuer, is_account}
use effect_auth.Passwords.{
  PasswordHasher, PasswordConfig, SignInOptions, hash_of, or_dummy, id_or_absent, absent_user_id,
  credential_account_for, verify_hash,
}
use effect_auth.Passwords.Entry.{admitted, sign_in_options, sign_in}

pub credential_account_for-ok :
    (user_id : Text) (w after : World) (found : Option Account)
    → credential_account_for user_id w ≡ (ok found, after)
    → (hash_of found ≡ stored_hash user_id w) × (after ≡ called w)
unfolding credential_account_for Accounts.Store.find_by_issuer_account_id
credential_account_for-ok user_id w after found =
    persist-cases
      (λ r. r ≡ (ok found, after) → (hash_of found ≡ stored_hash user_id w) × (after ≡ called w)) _
      (λ v. (ok (head? (filter (is_account credential_issuer user_id) v.accounts)), v)) w
      (λ h. absurd (err-ne-ok h))
      (λ h.
        (ap hash_of (sym (ok_injective _ found _ after h)), sym (world_of _ (ok found) _ after h)))

module _ (lower_other : ℕ → Text) (hasher : PasswordHasher) (dummy_hash : Text)
    (settings : PasswordConfig) (base64 : Base64) (hash_token : Text → Text) (dialect : Dialect)
    (sessions : SessionConfig) (hooks : Hooks) (decide : Option Decider) where
  -- The address is a user's, the user's stored hash is that of the password, the address is
  -- verified where it has to be, and the result is the sign-in's that the pipeline completes.
  pub record IsAdmitted (options : SignInOptions) (before : World) (result : SignInResult)
      (after : World) : Type 0 where
    pub user : User
    pub hash : Text
    pub found : find_email (normalize_email lower_other options.email) before.users ≡ some user
    pub stored : stored_hash user.id before ≡ some hash
    pub matched : hasher.verify options.password hash ≡ some true
    pub verified : (settings.require_email_verification && not user.email_verified) ≡ false
    pub completed :
        complete_sign_in hash_token sessions hooks decide
          (sign_in_options lower_other hasher dummy_hash settings base64 hash_token dialect sessions
            hooks decide options user)
          (called (called before))
        ≡ (ok result, after)

  refused_as :
      (options : SignInOptions) (before w : World) (found : Option User) (stored : Option Text)
      (matches : Bool)
      → find_email (normalize_email lower_other options.email) before.users ≡ found
      → stored_hash (id_or_absent found) before ≡ stored
      → hasher.verify options.password (or_dummy dummy_hash stored) ≡ some matches
      → ((user : User) (hash : Text)
          → find_email (normalize_email lower_other options.email) before.users ≡ some user
          → stored_hash user.id before ≡ some hash
          → hasher.verify options.password hash ≡ some false)
      → admitted lower_other hasher dummy_hash settings base64 hash_token dialect sessions hooks
          decide options found stored matches w
        ≡ (err invalid_credentials, w)
  refused_as options before w none stored matches f s m rejects = refl
  refused_as options before w (some user) none matches f s m rejects = refl
  refused_as options before w (some user) (some hash) false f s m rejects = refl
  refused_as options before w (some user) (some hash) true f s m rejects =
      let wrong = rejects user hash f s in absurd (cc)

  -- The hasher answers on the hash that the sign-in compares.
  answered :
      (options : SignInOptions) (before : World) (reading : Bool) (found : Option User)
      (stored : Option Text)
      → stored_hash absent_user_id before ≡ none
      → hasher.verify options.password dummy_hash ≡ some reading
      → ((user : User) (hash : Text)
          → find_email (normalize_email lower_other options.email) before.users ≡ some user
          → stored_hash user.id before ≡ some hash
          → hasher.verify options.password hash ≡ some false)
      → find_email (normalize_email lower_other options.email) before.users ≡ found
      → stored_hash (id_or_absent found) before ≡ stored
      → (matches : Bool) × (hasher.verify options.password (or_dummy dummy_hash stored)
          ≡ some matches)
  answered options before reading found none nobody read rejects f s = (reading, read)
  answered options before reading none (some hash) nobody read rejects f s = absurd (cc)
  answered options before reading (some user) (some hash) nobody read rejects f s =
      (false, rejects user hash f s)

  -- A sign-in by password is refused in one way: where no user has the address, where the user
  -- has no password, and where the password is not the user's, the error is the same and so is
  -- the world that is left, after two calls of the store; provided that these answer, that the
  -- hasher can read the dummy hash and the hash of a user with a password, and that no account
  -- is stored for the absent user.
  pub sign_in-refused :
      (options : SignInOptions) (before : World) (reading : Bool)
      → before.fault before.calls ≡ false
      → before.fault (suc before.calls) ≡ false
      → stored_hash absent_user_id before ≡ none
      → hasher.verify options.password dummy_hash ≡ some reading
      → ((user : User) (hash : Text)
          → find_email (normalize_email lower_other options.email) before.users ≡ some user
          → stored_hash user.id before ≡ some hash
          → hasher.verify options.password hash ≡ some false)
      → sign_in lower_other hasher dummy_hash settings base64 hash_token dialect sessions hooks
          decide options before
        ≡ (err invalid_credentials, called (called before))
  unfolding sign_in verify_hash credential_account_for Users.find_by_email
      Accounts.Store.find_by_issuer_account_id
  sign_in-refused options before reading up again nobody read rejects =
      let found = find_email (normalize_email lower_other options.email) before.users in
      let stored = stored_hash (id_or_absent found) before in
      let (matches, compared) =
        answered options before reading found stored nobody read rejects refl refl in
      rw (up, again, compared)
        (refused_as options before (called (called before)) found stored matches refl refl compared
          rejects)
