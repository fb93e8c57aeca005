-- ===== src/Runtime.antt =====
-- What a request runs against: the clock, the random sources, the storage and its faults, and the
-- event hub; and the failures of src/domain/Errors.ts and src/domain/Stores.ts. An operation is a
-- function from a world to a result and the world that it leaves, also where it fails.
mod Factors
mod Credentials
pub mod Keeps
pub mod Steps
pub mod Fixtures
pub use Credentials.{Account, Mail, email_mail, reset_mail, PolicyReason, too_short, too_long}
pub use Factors.{TotpEnrolment, RecoveryCode, TrustedDevice, Datum, of_text, of_number}
use effect_auth.Prelude.{
  ℕ, suc, ◌+◌, ◌≡◌, ap, refl, Bool, true, false, Option, none, some, List, [], ◌∷◌, ◌++◌, Text,
  if◌then◌else◌,
}
use effect_auth.Prelude.Maps.{Map}
use effect_auth.Assurance.{Aal, AuthenticationMethod, AssurancePolicyJson}

-- The current level, the moment of authentication and the methods to step up with.
pub record CurrentAssurance : Type 0 where
  pub aal : Aal
  pub authenticated_at : ℕ
  pub available : List Text

pub data Error : Type 0 where
  invalid_token invalid_code unauthorized session_expired not_found : Error
  step_up_required : AssurancePolicyJson → CurrentAssurance → Error
  policy_refused : Text → Error
  -- src/two-factor/TwoFactor.ts and src/domain/Errors.ts
  totp_not_enrolled totp_already_enrolled rate_limited : Error
  -- src/domain/Errors.ts: passwords and accounts
  invalid_credentials email_not_verified password_already_set user_already_exists : Error
  password_hash_failed user_not_found cannot_unlink_last_account : Error
  password_policy_violation : PolicyReason → ℕ → ℕ → Error
  account_already_linked : Text → Error
  persistence : Text → Error
  -- `PersistenceError` of the kind "UniqueViolation"
  unique_violation : Text → Error
  -- `Effect.die`: a defect
  defect : Text → Error

pub data Result {ℓ} (A : Type ℓ) : Type ℓ where
  ok : A → Result A
  err : Error → Result A

-- `User` of src/domain/Schema.ts, without the columns that no modelled operation reads.
pub record User : Type 0 where
  pub id : Text
  pub email : Text
  pub email_verified : Bool

pub record Session : Type 0 where
  pub id : Text
  pub token_hash : Text
  pub user_id : Text
  pub expires_at : ℕ
  pub ip_address : Option Text
  pub user_agent : Option Text
  pub authenticated_at : ℕ
  pub aal : Aal
  pub methods : List AuthenticationMethod
  pub remember_me : Bool
  pub created_at : ℕ
  pub updated_at : ℕ

pub record Verification : Type 0 where
  pub id : Text
  pub identifier : Text
  pub value_hash : Text
  pub payload : Option Text
  pub expires_at : ℕ
  pub created_at : ℕ
  pub updated_at : ℕ

pub data RevocationScope : Type 0 where
  single everything others : RevocationScope

-- The events of src/domain/Events.ts that the modelled operations publish.
pub data AuthEvent : Type 0 where
  signed_in : Text → Text → Text → List AuthenticationMethod → AuthEvent
  signed_out : Text → Text → AuthEvent
  session_revoked : Text → Option Text → RevocationScope → ℕ → AuthEvent
  session_elevated : Text → Text → Text → AuthEvent
  user_created : Text → Text → Bool → Text → AuthEvent
  email_verified_event password_reset_requested : Text → AuthEvent
  password_changed : Text → Bool → AuthEvent
  -- the user, the account, the provider and the issuer
  account_linked account_unlinked : Text → Text → Text → Text → AuthEvent
  -- the plugin, its event, the user and the data
  plugin_event : Text → Text → Text → List (Text × Datum) → AuthEvent

-- `clock n` is what the n-th reading of the clock answers, `fault n` whether the n-th call of a
-- store fails, and `tokens`, `codes_drawn` and `ids` what the random sources answer in turn.
pub record World : Type 0 where
  pub clock : ℕ → ℕ
  pub reads : ℕ
  pub tokens : ℕ → Text
  pub drawn : ℕ
  pub ids : ℕ → Text
  pub minted : ℕ
  pub numeric_codes : ℕ → ℕ → Text
  pub coded : ℕ
  pub fault : ℕ → Bool
  pub calls : ℕ
  pub users : List User
  pub accounts : List Account
  pub sessions : List Session
  pub verifications : List Verification
  pub enrolments : Map TotpEnrolment
  pub recovery_codes : List RecoveryCode
  pub trusted_devices : List TrustedDevice
  pub events : List AuthEvent
  pub mails : List Mail

abbrev pub Auth : Type 0 → Type 0
Auth A = World → Result A × World

abbrev pub pure : {A : Type 0} → A → Auth A
pure a w = (ok a, w)

abbrev pub fail : {A : Type 0} → Error → Auth A
fail e w = (err e, w)

abbrev pub resume : {A B : Type 0} → Result A × World → (A → Auth B) → Result B × World
resume (ok a, w) f = f a w
resume (err e, w) f = (err e, w)

infixl 5 ◌>>=◌ ◌>>◌
abbrev pub ◌>>=◌ : {A B : Type 0} → Auth A → (A → Auth B) → Auth B
◌>>=◌ m f w = resume (m w) f

abbrev pub ◌>>◌ : {A B : Type 0} → Auth A → Auth B → Auth B
m >> n = m >>= λ _. n

-- `DateTime.now`
abbrev pub now : Auth ℕ
now w = (ok (w.clock w.reads), record w { reads = suc w.reads })

-- `Token.generateToken`
abbrev pub generate_token : Auth Text
generate_token w = (ok (w.tokens w.drawn), record w { drawn = suc w.drawn })

-- `Model.UuidV7Insert`
abbrev pub generate_id : Auth Text
generate_id w = (ok (w.ids w.minted), record w { minted = suc w.minted })

-- `Effect.fromOption`
abbrev pub from_option : {A : Type 0} → Option A → Error → Auth A
from_option none e w = (err e, w)
from_option (some a) e w = (ok a, w)

abbrev called : World → World
called w = record w { calls = suc w.calls }

-- `persist`: a store's call answers, or fails with `PersistenceError` and has changed nothing.
abbrev pub persist : {A : Type 0} → Text → Auth A → Auth A
persist operation statement w =
    if w.fault w.calls then (err (persistence operation), called w) else statement (called w)

-- `publishSafely`: what the hub raises is swallowed.
abbrev pub publish_safely : AuthEvent → Auth (Unit {0})
publish_safely e w = (ok tt, record w { events = w.events ++ e ∷ [] })

-- `Effect.ignore`
abbrev pub ignore : {A : Type 0} → Auth A → Auth (Unit {0})
ignore m w = (ok tt, (m w).1)

-- A failure is not a success.
pub err-ne-ok :
    {A : Type 0} {e : Error} {a : A} {w w' : World}
    → ◌≡◌ {A = Result A × World} (err e, w) (ok a, w')
    → ⊥
err-ne-ok {A} h = cc (ap (λ (r : Result A × World). r.0) h)
