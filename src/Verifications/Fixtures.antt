-- ===== src/Verifications/Fixtures.antt =====
-- An encoding to run the tests with, which shifts every unit past the separator.
use effect_auth.Prelude.{◌+◌, ◌-◌, ◌≡◌, ◌≢◌, refl, ap, some, [], ◌∷◌, Text, All, arith, map}
use effect_auth.Verifications.{Base64, subject_token_separator}
use effect_auth.Verifications.Tokens.{IsBase64}

abbrev pub shifting : Base64
shifting = record { encode = map (λ c. c + 47); decode = λ t. some (map (λ c. c - 47) t) }

back : (s : Text) → map (λ c. c - 47) (map (λ c. c + 47) s) ≡ s
back [] = refl
back (c ∷ s) = ground (arith, back s)

apart : (s : Text) → All (λ d. d ≢ subject_token_separator) (map (λ c. c + 47) s)
apart [] = tt
apart (c ∷ s) = ((λ e. absurd (omega (arith, e))), apart s)

nonempty : (s : Text) → s ≢ [] → map (λ c. c + 47) s ≢ []
nonempty [] h = h
nonempty (c ∷ s) h = λ e. cc

pub shifting-IsBase64 : IsBase64 shifting
shifting-IsBase64 = record {
  decode-encode = λ s. ap some (back s);
  no_separator = apart;
  encode_nonempty = nonempty;
}
