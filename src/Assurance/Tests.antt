-- ===== src/Assurance/Tests.antt =====
-- The theorems on levels and reported values at concrete logs.
use effect_auth.Prelude.{◌≡◌, ◌↔◌, ◌⊎◌, refl, false, none, [], ◌∷◌, codes}
use effect_auth.Assurance.{
  AuthenticationMethod, aal2, knowledge, possession, no_factor, derive_aal, live,
}
use effect_auth.Assurance.Level.{HasCeremony, HasTwoFactors, derive_aal-eq-aal2}

abbrev password : AuthenticationMethod
password = record {
  method = codes "password";
  factor = knowledge;
  phishing_resistant = false;
  restricted = false;
  user_verified = none;
  completed_at = 5;
}

abbrev totp : AuthenticationMethod
totp = record password { method = codes "totp"; factor = possession }

abbrev anonymous : AuthenticationMethod
anonymous = record password { method = codes "anonymous"; factor = no_factor }

derive_aal-eq-aal2_example :
    (derive_aal (password ∷ totp ∷ []) ≡ aal2)
    ↔ (HasCeremony (password ∷ totp ∷ []) ⊎ HasTwoFactors (password ∷ totp ∷ []))
derive_aal-eq-aal2_example = derive_aal-eq-aal2 (password ∷ totp ∷ [])

two_factors : derive_aal (password ∷ totp ∷ []) ≡ aal2
unfolding derive_aal live
two_factors = refl
