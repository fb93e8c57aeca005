-- ===== src/Passwords/SignUps.antt =====
-- What a registration by password leaves, for a deployment without hooks on users.
use effect_auth.Prelude.{ℕ, ◌≡◌, Option, some, Text, text_eq}
use effect_auth.Runtime.{World, User}
use effect_auth.Sql.{Dialect}
use effect_auth.Sessions.{SessionConfig}
use effect_auth.Verifications.{Base64}
use effect_auth.SignIn.{Hooks, Decider}
use effect_auth.Users
use effect_auth.Users.{transaction}
use effect_auth.Accounts
use effect_auth.Accounts.{UserHooks}
use effect_auth.Accounts.Store.{clashes}
use effect_auth.Passwords.{PasswordHasher, PasswordConfig}
use effect_auth.Passwords.Entry.{enrolled}
use effect_auth.Passwords.Enrolled.{IsEnrolled}

module _ (lower_other : ℕ → Text) (hasher : PasswordHasher) (dummy_hash : Text)
    (settings : PasswordConfig) (base64 : Base64) (hash_token : Text → Text) (dialect : Dialect)
    (sessions : SessionConfig) (hooks : Hooks) (decide : Option Decider) where
  -- The user has the address, and a hash of the password.
  record IsRegistered (email password : Text) (user : User) (after : World) : Type 0 where
    salt : Text
    hash : Text
    hashed : hasher.hash password salt ≡ some hash
    enrolled : IsEnrolled email hash user after
