-- ===== src/E164.antt =====
-- src/phone/E164.ts: the one spelling of a telephone number.
pub mod Canonical
pub mod Country
mod Tests
use effect_auth.Prelude.{
  ℕ, suc, ◌+◌, ◌-◌, ◌≡◌, ◌≤◌, Bool, true, false, not, ◌&&◌, ◌||◌, Option, none, some, List, [], ◌∷◌,
  ◌++◌, Text, All, leb, ltb, nat_beq, nat_eq, length, take, drop, contains, if◌then◌else◌,
}

abbrev pub max_digits : ℕ
max_digits = 15

abbrev pub min_digits : ℕ
min_digits = 7

abbrev pub max_country_code_digits : ℕ
max_country_code_digits = 3

abbrev pub max_input_length : ℕ
max_input_length = 64

-- A space, a tab, a hyphen, a dot, a slash, the parentheses and a space that does not break.
abbrev pub separators : List ℕ
separators = 32 ∷ 9 ∷ 45 ∷ 46 ∷ 47 ∷ 40 ∷ 41 ∷ 160 ∷ []

unfoldable pub is_separator : ℕ → Bool
is_separator c = contains separators c

abbrev pub plus_sign : ℕ
plus_sign = 43

abbrev pub is_ascii_digit : ℕ → Bool
is_ascii_digit c = leb 48 c && leb c 57

abbrev pub is_empty : Text → Bool
is_empty [] = true
is_empty (c ∷ t) = false

-- The loop of `normalize`: the digits so far, and whether the plus sign was seen.
unfoldable pub scan : Text → Text → Bool → Option (Text × Bool)
scan [] digits plus = some (digits, plus)
scan (c ∷ rest) digits plus =
    let skipped = scan rest digits plus in
    let signed = scan rest digits true in
    let read = scan rest (digits ++ c ∷ []) plus in
    if is_separator c
    then skipped
    else if nat_beq c plus_sign
    then (if plus || not (is_empty digits) then none else signed)
    else if is_ascii_digit c
    then read
    else none

unfoldable pub starts_with_zero : Text → Bool
starts_with_zero [] = false
starts_with_zero (c ∷ t) = nat_beq c 48

-- The tests after the loop.
unfoldable pub accept : Option (Text × Bool) → Option Text
accept none = none
accept (some (digits, plus)) =
    if not plus
    then none
    else if ltb (length digits) min_digits || ltb max_digits (length digits)
    then none
    else if starts_with_zero digits
    then none
    else some (plus_sign ∷ digits)

unfoldable pub normalize : Text → Option Text
normalize input = if ltb max_input_length (length input) then none else accept (scan input [] false)

unfoldable pub is_valid : Text → Bool
is_valid input = elim (normalize input) [ none ↦ false | some number ↦ true ]

unfoldable pub digits_of : Text → Text
digits_of [] = []
digits_of (c ∷ t) = if nat_beq c plus_sign then t else c ∷ t

unfoldable pub all_digits : Text → Bool
all_digits [] = true
all_digits (c ∷ t) = is_ascii_digit c && all_digits t

unfoldable pub is_calling_code : Text → Bool
is_calling_code candidate =
    if ltb (length candidate) 1 || ltb max_country_code_digits (length candidate)
    then false
    else if starts_with_zero candidate
    then false
    else all_digits candidate

-- `String.startsWith`
unfoldable pub starts_with : Text → Text → Bool
starts_with text [] = true
starts_with [] (c ∷ prefix) = false
starts_with (d ∷ text) (c ∷ prefix) = nat_beq d c && starts_with text prefix

abbrev pub is_longer : Text → Option Text → Bool
is_longer candidate none = true
is_longer candidate (some best) = ltb (length best) (length candidate)

-- The loop of `countryCodeOf`.
unfoldable pub longest : List Text → Text → Option Text → Option Text
longest [] digits best = best
longest (candidate ∷ allowed) digits best =
    let kept = longest allowed digits best in
    let taken = longest allowed digits (some candidate) in
    if not (is_calling_code candidate)
    then kept
    else if not (starts_with digits candidate)
    then kept
    else if is_longer candidate best
    then taken
    else kept

unfoldable pub country_code_of : List Text → Text → Option Text
country_code_of allowed e164 = longest allowed (digits_of e164) none

unfoldable pub is_allowed : List Text → Text → Bool
is_allowed allowed e164 = elim (country_code_of allowed e164) [ none ↦ false | some code ↦ true ]

abbrev pub prefix_digits : ℕ
prefix_digits = 3

unfoldable pub prefix_of : Text → Text → Text
prefix_of country_code e164 =
    plus_sign ∷ take (length country_code + prefix_digits) (digits_of e164)

-- The middle is the character U+2026.
unfoldable pub mask : Text → Text
mask e164 =
    let digits = digits_of e164 in
    if leb (length digits) 6
    then plus_sign ∷ digits
    else plus_sign ∷ take 2 digits ++ (8230 ∷ drop (length digits - 4) digits)
