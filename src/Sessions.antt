-- ===== src/Sessions.antt =====
-- src/domain/Sessions.ts: the models, the lifetime arithmetic and the assurance guards. The service
-- is in Sessions/Service.antt, its storage (src/sql/stores/Sessions.ts) in Sessions/Store.antt.
-- Moments and durations are milliseconds; a configured lifetime is finite.
pub mod Store
pub mod Service
pub mod Invariant
pub mod Lookup
pub mod Verify
pub mod Revoke
pub mod Policy
pub mod StepUp
pub mod Mint
pub mod Listing
pub mod Requests
mod Tests
use effect_auth.Prelude.{
  ℕ, ◌+◌, ◌-◌, ◌<◌, Bool, true, false, not, ◌&&◌, Option, none, some, List, Text, text_eq, codes,
  ltb, leb, ◌==◌, any, contains, filter, if◌then◌else◌,
}
use effect_auth.Assurance.{
  Aal, AuthenticationFactor, no_factor, AuthenticationMethod, factor_eq, derive_aal, Duration,
  millis, infinity, AssurancePolicy, policy_to_json,
}
use effect_auth.Assurance.Level.{rank_of}
use effect_auth.Runtime.{Session, User, Auth, fail, pure, step_up_required, now, ◌>>=◌}

-- `AuthConfig.session` of src/config/AuthConfig.ts
pub record SessionConfig : Type 0 where
  pub expires_in : ℕ
  pub update_age : ℕ
  pub fresh_age : ℕ
  pub remember_me_disabled_expires_in : ℕ

pub record Evidence : Type 0 where
  pub method : Text
  pub factor : AuthenticationFactor
  pub phishing_resistant : Bool
  pub restricted : Bool
  pub user_verified : Option Bool
  pub completed_at : Option ℕ

pub record CreateOptions : Type 0 where
  pub user_id : Text
  pub ip_address : Option Text
  pub user_agent : Option Text
  pub remember_me : Option Bool
  pub methods : Option (List Evidence)
  pub authenticated_at : Option ℕ

pub record CreatedSession : Type 0 where
  pub session : Session
  pub token : Text

pub record VerifiedSession : Type 0 where
  pub session : Session
  pub user : User
  pub refreshed : Bool

abbrev pub or_else {ℓ} : {A : Type ℓ} → Option A → A → A
or_else none d = d
or_else (some a) d = a

unfoldable pub stamp_evidence : Evidence → ℕ → AuthenticationMethod
stamp_evidence evidence at = record {
  method = evidence.method;
  completed_at = or_else evidence.completed_at at;
  factor = evidence.factor;
  phishing_resistant = evidence.phishing_resistant;
  restricted = evidence.restricted;
  user_verified = evidence.user_verified;
}

-- `DateTime.distance(updatedAt, expiresAt)`, where it is positive.
unfoldable pub granted_lifetime : Session → SessionConfig → ℕ
granted_lifetime session config =
    if ltb session.updated_at session.expires_at
    then session.expires_at - session.updated_at
    else config.expires_in

-- The sum is taken first, so that the difference stops at 0 only for a moment before the epoch.
unfoldable pub refresh_due_at : Session → SessionConfig → ℕ
unfolding granted_lifetime
refresh_due_at session config =
    session.expires_at + config.update_age - granted_lifetime session config

unfoldable pub is_refresh_due : Session → SessionConfig → ℕ → Bool
unfolding refresh_due_at
is_refresh_due session config at = leb (refresh_due_at session config) at

unfoldable pub is_expired : Session → ℕ → Bool
is_expired session at = leb session.expires_at at

unfoldable pub is_fresh_at : Session → SessionConfig → ℕ → Bool
is_fresh_at session config at = ltb at (session.authenticated_at + config.fresh_age)

abbrev pub recovery_code_method : Text
recovery_code_method = codes "recoveryCode"

is_false : Option Bool → Bool
is_false (some false) = true
is_false _ = false

-- The evidence that is left where the policy refuses recovery codes.
unfoldable pub considered : List AuthenticationMethod → AssurancePolicy → List AuthenticationMethod
unfolding is_false
considered methods policy =
    if is_false policy.allow_recovery
    then filter (λ entry. not (entry.method == recovery_code_method)) methods
    else methods

meets_level : List AuthenticationMethod → Option Aal → Bool
meets_level evidence none = true
meets_level evidence (some wanted) = not (ltb (rank_of (derive_aal evidence)) (rank_of wanted))

-- An infinite age is never over.
meets_age : ℕ → Option Duration → ℕ → Bool
meets_age authenticated_at none at = true
meets_age authenticated_at (some (millis n)) at = ltb at (authenticated_at + n)
meets_age authenticated_at (some infinity) at = true

meets_methods : List AuthenticationMethod → Option (List Text) → Bool
meets_methods evidence none = true
meets_methods evidence (some wanted) =
    any (λ entry. not (entry.factor == no_factor) && contains wanted entry.method) evidence

unfoldable pub meets_assurance : Session → AssurancePolicy → ℕ → Bool
unfolding meets_level meets_age meets_methods
meets_assurance session policy at =
    let evidence = considered session.methods policy in
    if not (meets_level evidence policy.aal)
    then false
    else if not (meets_age session.authenticated_at policy.max_age at)
    then false
    else if not (meets_methods evidence policy.methods)
    then false
    else true

unfoldable pub require_assurance_for : Session → AssurancePolicy → List Text → Auth (Unit {0})
require_assurance_for session policy available = do
  at ← now
  if meets_assurance session policy at
      then pure tt
      else fail (
          step_up_required (policy_to_json policy) (record {
            aal = session.aal;
            authenticated_at = session.authenticated_at;
            available = available;
          }))
