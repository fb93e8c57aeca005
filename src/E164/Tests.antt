-- ===== src/E164/Tests.antt =====
-- The theorems on telephone numbers at concrete ones.
use effect_auth.Prelude.{◌≡◌, refl, some, List, [], ◌∷◌, Text, arith, codes, filter}
use effect_auth.E164.{
  plus_sign, is_ascii_digit, is_separator, scan, accept, normalize, starts_with_zero, all_digits,
  digits_of, is_calling_code, starts_with, longest, country_code_of,
}
use effect_auth.E164.Canonical.{IsCanonical, normalize-IsCanonical}

abbrev typed : Text
typed = codes "+1 (555) 010-0000"

abbrev number : Text
number = codes "+15550100000"

typed-normal : normalize typed ≡ some number
unfolding normalize scan accept is_separator starts_with_zero
typed-normal = refl

normalize-IsCanonical_example :
    (IsCanonical number) × (number ≡ plus_sign ∷ filter is_ascii_digit typed)
normalize-IsCanonical_example = normalize-IsCanonical typed number typed-normal

number-IsCanonical : IsCanonical number
unfolding all_digits starts_with_zero
number-IsCanonical = record {
  digits = codes "15550100000";
  spelled = refl;
  are_digits = refl;
  enough = omega arith;
  few = omega arith;
  no_zero = refl;
}

abbrev served : List Text
served = codes "1" ∷ codes "1555" ∷ codes "155" ∷ codes "49" ∷ []

country_found : country_code_of served number ≡ some (codes "155")
unfolding country_code_of longest is_calling_code starts_with digits_of starts_with_zero all_digits
country_found = refl
