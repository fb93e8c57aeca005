-- ===== src/Assurance.antt =====
-- src/domain/Assurance.ts: the log of authentication methods, the level derived from it, the `amr`
-- values and the wire form of a policy. Moments are milliseconds of the epoch.
pub mod Level
pub mod Amr
mod Tests
use effect_auth.Prelude.{
  ℕ, ◌/◌, ◌≡◌, refl, Bool, true, false, not, Option, none, some, List, [], ◌∷◌, ◌++◌, map, Text,
  text_eq, codes, EqTest, ◌==◌, leb, length, any, filter, set_from, set_add, if◌then◌else◌, ◌↔◌,
}

-- The literals "aal0", "aal1" and "aal2".
pub data Aal : Type 0 where
  aal0 aal1 aal2 : Aal

-- The literals "knowledge", "possession", "inherence" and "none" (here `no_factor`).
pub data AuthenticationFactor : Type 0 where
  knowledge possession inherence no_factor : AuthenticationFactor

pub record AuthenticationMethod : Type 0 where
  pub method : Text
  pub completed_at : ℕ
  pub factor : AuthenticationFactor
  pub phishing_resistant : Bool
  pub restricted : Bool
  pub user_verified : Option Bool

abbrev factor_beq : AuthenticationFactor → AuthenticationFactor → Bool
factor_beq knowledge knowledge = true
factor_beq possession possession = true
factor_beq inherence inherence = true
factor_beq no_factor no_factor = true
factor_beq _ _ = false

pub factor_beq_iff : (a b : AuthenticationFactor) → (factor_beq a b ≡ true) ↔ (a ≡ b)
factor_beq_iff knowledge knowledge = ((λ _. refl), (λ _. refl))
factor_beq_iff possession possession = ((λ _. refl), (λ _. refl))
factor_beq_iff inherence inherence = ((λ _. refl), (λ _. refl))
factor_beq_iff no_factor no_factor = ((λ _. refl), (λ _. refl))
factor_beq_iff _ _ = ((λ h. cc), (λ h. cc))

instance abbrev pub factor_eq : EqTest AuthenticationFactor
factor_eq = record { test = factor_beq; test_iff = factor_beq_iff }

abbrev pub is_live : AuthenticationMethod → Bool
is_live entry = not (entry.factor == no_factor)

unfoldable pub live : List AuthenticationMethod → List AuthenticationMethod
live methods = filter is_live methods

-- `entry.userVerified === true`
abbrev pub is_multi_factor_ceremony : AuthenticationMethod → Bool
is_multi_factor_ceremony entry = elim entry.user_verified [ none ↦ false | some b ↦ b ]

abbrev pub factors_of : List AuthenticationMethod → List AuthenticationFactor
factors_of counted = set_from [] (map (λ entry. entry.factor) counted)

level_of : List AuthenticationMethod → Aal
level_of [] = aal0
level_of (entry ∷ rest) =
    if any is_multi_factor_ceremony (entry ∷ rest)
    then aal2
    else if leb 2 (length (factors_of (entry ∷ rest)))
    then aal2
    else aal1

unfoldable pub derive_aal : List AuthenticationMethod → Aal
unfolding live level_of
derive_aal methods = level_of (live methods)

-- The `switch` on `entry.method`.
unfoldable pub amr_entries_of : AuthenticationMethod → List Text
amr_entries_of entry =
    if entry.method == codes "password"
    then codes "pwd" ∷ []
    else if entry.method == codes "totp"
    then codes "otp" ∷ []
    else if entry.method == codes "recoveryCode"
    then codes "otp" ∷ []
    else if entry.method == codes "emailOtp"
    then codes "otp" ∷ codes "mca" ∷ []
    else if entry.method == codes "magic-link"
    then codes "otp" ∷ codes "mca" ∷ []
    else if entry.method == codes "sms"
    then codes "otp" ∷ codes "sms" ∷ codes "mca" ∷ []
    else if entry.method == codes "passkey"
    then (if is_multi_factor_ceremony entry
        then codes "swk" ∷ codes "pop" ∷ codes "user" ∷ []
        else codes "swk" ∷ codes "pop" ∷ [])
    else []

-- The loop over the live entries, each adding its values to the set.
amr_from : List Text → List AuthenticationMethod → List Text
amr_from values [] = values
amr_from values (entry ∷ rest) = amr_from (set_from values (amr_entries_of entry)) rest

abbrev pub is_aal2 : Aal → Bool
is_aal2 aal2 = true
is_aal2 _ = false

unfoldable pub amr_of : List AuthenticationMethod → List Text
unfolding amr_from live
amr_of methods =
    let values = amr_from [] (live methods) in
    if is_aal2 (derive_aal methods) then set_add values (codes "mfa") else values

-- A `Duration`: milliseconds, or `Duration.infinity`.
pub data Duration : Type 0 where
  millis : ℕ → Duration
  infinity : Duration

pub record AssurancePolicy : Type 0 where
  pub aal : Option Aal
  pub max_age : Option Duration
  pub methods : Option (List Text)
  pub allow_recovery : Option Bool

-- `max_age` is `Duration.toSeconds` of the policy's, in thousandths of a second.
pub record AssurancePolicyJson : Type 0 where
  pub aal : Option Aal
  pub max_age_millis : Option ℕ
  pub methods : Option (List Text)
  pub allow_recovery : Option Bool

max_age_json : Option Duration → Option ℕ
max_age_json (some (millis n)) = some n
max_age_json (some infinity) = none
max_age_json none = none

unfoldable pub policy_to_json : AssurancePolicy → AssurancePolicyJson
unfolding max_age_json
policy_to_json policy = record {
  aal = policy.aal;
  max_age_millis = max_age_json policy.max_age;
  methods = policy.methods;
  allow_recovery = policy.allow_recovery;
}
