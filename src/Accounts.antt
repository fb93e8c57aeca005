-- ===== src/Accounts.antt =====
-- src/domain/Accounts.ts: attaching a provider's identity to a user and detaching it. An
-- identity comes without the tokens of the provider: no decision reads them. The hooks are the
-- deployment's.
pub mod Store
pub mod Unlink
pub mod Inserted
pub mod Linking
mod Tests
use effect_auth.Prelude.{
  ℕ, ◌+◌, Bool, true, false, not, ◌&&◌, ◌||◌, Option, none, some, List, [], ◌∷◌, Text, text_eq,
  codes, ltb, ◌==◌, any, filter, length, head?, if◌then◌else◌,
}
use effect_auth.Runtime.{
  World, User, Account, Auth, Result, Error, ok, err, account_already_linked, user_not_found,
  not_found, cannot_unlink_last_account, unique_violation, user_created, account_linked,
  account_unlinked, pure, fail, now, generate_id, from_option, publish_safely, ◌>>=◌, ◌>>◌,
}
use effect_auth.SignIn.{oauth, method_of}
use effect_auth.Users
use effect_auth.Users.{normalize_email, transaction}
use effect_auth.Accounts.Store
use effect_auth.Accounts.Store.{credential_issuer}

pub record OAuthIdentity : Type 0 where
  pub issuer : Text
  pub account_id : Text
  pub provider_id : Text
  pub email : Text
  pub email_verified : Bool

pub record LinkResult : Type 0 where
  pub user : User
  pub account : Account
  pub user_created : Bool
  pub account_created : Bool

abbrev pub can_link_implicitly : Bool → Bool → Bool → Bool
can_link_implicitly provider_email_verified local_email_verified is_trusted =
    provider_email_verified && (is_trusted || local_email_verified)

-- The hooks of src/domain/Hooks.ts that provisioning and linking run; `rewritten` keeps the
-- answer's address normalized.
pub record UserHooks : Type 0 where
  pub before_user_create : Option (User → Auth User)
  pub after_user_create : Option (User → Auth (Unit {0}))
  pub before_account_link : Option (User → Text → Auth (Unit {0}))

abbrev pub run_after : Option (User → Auth (Unit {0})) → User → Auth (Unit {0})
run_after none user = pure tt
run_after (some hook) user = hook user

abbrev pub run_before_link : Option (User → Text → Auth (Unit {0})) → User → Text → Auth (Unit {0})
run_before_link none user provider_id = pure tt
run_before_link (some hook) user provider_id = hook user provider_id

abbrev pub rewritten : (ℕ → Text) → Option (User → Auth User) → User → Auth User
rewritten lower_other none candidate = pure candidate
rewritten lower_other (some hook) candidate = hook candidate >>= λ answer.
    pure (record answer { email = normalize_email lower_other answer.email })

-- The user that is stored is the one that the hook lets through.
unfoldable pub provision : (ℕ → Text) → UserHooks → User → Auth User
provision lower_other hooks candidate = do
  row ← rewritten lower_other hooks.before_user_create candidate
  user ← Users.create row
  run_after hooks.after_user_create user
  pure user

unfoldable pub insert_account : Text → OAuthIdentity → Auth Account
insert_account user_id identity = do
  id ← generate_id
  created_at ← now
  updated_at ← now
  Store.create (record {
    id = id;
    issuer = identity.issuer;
    account_id = identity.account_id;
    provider_id = identity.provider_id;
    user_id = user_id;
    password_hash = none;
    created_at = created_at;
    updated_at = updated_at;
  })

unfoldable pub link_existing : Text → OAuthIdentity → Auth Account
link_existing user_id identity =
    transaction (Users.lock_user_row user_id >> insert_account user_id identity)

abbrev pub linked : Text → Account → Auth (Unit {0})
linked user_id account =
    publish_safely (account_linked user_id account.id account.provider_id account.issuer)

abbrev pub attached : User → Account → LinkResult
attached user account = record {
  user = user;
  account = account;
  user_created = false;
  account_created = true;
}

abbrev pub known : User → Account → LinkResult
known user account = record {
  user = user;
  account = account;
  user_created = false;
  account_created = false;
}

-- The owner of an account that is known already.
abbrev pub owner_of : Account → Auth LinkResult
owner_of account = do
  found ← Users.find_by_id account.user_id
  owner ← from_option found user_not_found
  pure (known owner account)

unfoldable pub attach : UserHooks → User → OAuthIdentity → Auth LinkResult
attach hooks user identity = do
  run_before_link hooks.before_account_link user identity.provider_id
  account ← link_existing user.id identity
  linked user.id account
  pure (attached user account)

abbrev pub is_unique_violation : Error → Bool
is_unique_violation (unique_violation operation) = true
is_unique_violation _ = false

module _ (lower_other : ℕ → Text) (hooks : UserHooks) (trusted_providers : List Text) where
  unfoldable pub register : OAuthIdentity → Text → Auth (User × Account)
  register identity email = transaction (do
    id ← generate_id
    created ← now
    updated ← now
    user ←
        provision lower_other hooks
          (record { id = id; email = email; email_verified = identity.email_verified })
    account ← insert_account user.id identity
    pure (user, account))

  abbrev pub is_allowed : User → OAuthIdentity → Bool
  is_allowed user identity =
      can_link_implicitly identity.email_verified user.email_verified
        (any (λ p. p == identity.provider_id) trusted_providers)

  unfoldable pub register_and_tell : OAuthIdentity → Text → Auth LinkResult
  register_and_tell identity email = do
    (user, account) ← register identity email
    publish_safely (
        user_created user.id user.email user.email_verified
          (method_of (oauth identity.provider_id)))
    linked user.id account
    pure (record { user = user; account = account; user_created = true; account_created = true })

  abbrev pub by_address : OAuthIdentity → Text → Option User → Auth LinkResult
  by_address identity email none = register_and_tell identity email
  by_address identity email (some user) =
      if is_allowed user identity
      then attach hooks user identity
      else fail (account_already_linked identity.provider_id)

  abbrev pub by_account : OAuthIdentity → Option Account → Auth LinkResult
  by_account identity (some account) = owner_of account
  by_account identity none =
      Users.find_by_email (normalize_email lower_other identity.email)
      >>= by_address identity (normalize_email lower_other identity.email)

  unfoldable pub attempt_link_oauth : OAuthIdentity → Auth LinkResult
  attempt_link_oauth identity =
      Store.find_by_issuer_account_id identity.issuer identity.account_id >>= by_account identity

  -- `Effect.retry`, once, after a lost race.
  abbrev pub once_more : Auth LinkResult → Result LinkResult × World → Result LinkResult × World
  once_more again (ok a, w) = (ok a, w)
  once_more again (err e, w) = if is_unique_violation e then again w else (err e, w)

  unfoldable pub link_oauth : OAuthIdentity → Auth LinkResult
  link_oauth identity w = once_more (attempt_link_oauth identity) (attempt_link_oauth identity w)

unfoldable pub own_account : Text → User → OAuthIdentity → Account → Auth LinkResult
own_account user_id owner identity account =
    if account.user_id == user_id
    then pure (known owner account)
    else fail (account_already_linked identity.provider_id)

abbrev pub link_unless_known :
    UserHooks → Text → User → OAuthIdentity → Option Account → Auth LinkResult
link_unless_known hooks user_id owner identity none = attach hooks owner identity
link_unless_known hooks user_id owner identity (some account) =
    own_account user_id owner identity account

unfoldable pub link_to_user : UserHooks → Text → OAuthIdentity → Auth LinkResult
link_to_user hooks user_id identity = do
  found ← Users.find_by_id user_id
  owner ← from_option found user_not_found
  existing ← Store.find_by_issuer_account_id identity.issuer identity.account_id
  link_unless_known hooks user_id owner identity existing

abbrev pub is_present : {A : Type 0} → Option A → Bool
is_present none = false
is_present (some _) = true

abbrev pub can_sign_in : Account → Bool
can_sign_in account = not (account.issuer == credential_issuer) || is_present account.password_hash

abbrev pub is_target : Text → Account → Bool
is_target account_id account = account.id == account_id

-- Another way in: an account that is not the target and that one can sign in with.
abbrev pub is_other_way : Text → Account → Bool
is_other_way account_id account = not (is_target account_id account) && can_sign_in account

abbrev pub require_deleted : Account → Bool → Auth Account
require_deleted target true = pure target
require_deleted target false = fail not_found

-- `factors` is how many of the user's authenticators sign in by themselves.
unfoldable pub remove : (Text → Auth ℕ) → Text → Text → Auth Account
remove sign_in_factors account_id user_id = do
  held ← Store.list_by_user_id_for_update user_id
  target ← from_option (head? (filter (is_target account_id) held)) not_found
  factors ← sign_in_factors user_id
  if ltb 0 (length (filter (is_other_way account_id) held) + factors)
      then (Store.delete_by_id account_id user_id >>= require_deleted target)
      else fail cannot_unlink_last_account

unfoldable pub unlink : (Text → Auth ℕ) → Text → Text → Auth (Unit {0})
unlink sign_in_factors account_id user_id = do
  removed ← transaction (remove sign_in_factors account_id user_id)
  publish_safely (account_unlinked user_id removed.id removed.provider_id removed.issuer)
