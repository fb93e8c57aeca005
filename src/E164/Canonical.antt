-- ===== src/E164/Canonical.antt =====
-- Numbers have one spelling.
use effect_auth.Prelude.{
  ℕ, ◌≡◌, ◌≤◌, refl, sym, ap, ◌∙◌, inl, inr, Bool, true, false, some, [], ◌∷◌, ◌++◌, Text, arith,
  length, filter, append_assoc, append-nil, Option-cases,
}
use effect_auth.E164.{
  max_digits, min_digits, plus_sign, is_ascii_digit, is_separator, scan, starts_with_zero, accept,
  normalize, all_digits,
}

-- A plus sign and seven to fifteen digits, the first of which is no zero.
pub record IsCanonical (number : Text) : Type 0 where
  pub digits : Text
  pub spelled : number ≡ plus_sign ∷ digits
  pub are_digits : all_digits digits ≡ true
  pub enough : min_digits ≤ length digits
  pub few : length digits ≤ max_digits
  pub no_zero : starts_with_zero digits ≡ false

digit-is_separator : (c : ℕ) → is_ascii_digit c ≡ true → is_separator c ≡ false
unfolding is_separator
digit-is_separator c h = ground (arith, h)

scan_digits :
    (t digits : Text) (plus : Bool)
    → all_digits t ≡ true
    → scan t digits plus ≡ some (digits ++ t, plus)
unfolding scan all_digits
scan_digits [] digits plus h = ap (λ t. some (t, plus)) (sym (append-nil digits))
scan_digits (c ∷ t) digits plus h =
    let one : (digits ++ c ∷ []) ++ t ≡ digits ++ c ∷ t = append_assoc digits (c ∷ []) t in
    let rest : all_digits t ≡ true = ground (arith, h) in
    ground (arith, h, digit-is_separator c, one, scan_digits t (digits ++ c ∷ []) plus rest)

-- What the loop read: the digits of the input, in their order.
scan_reads :
    (t digits : Text) (plus : Bool) (r : Text × Bool)
    → scan t digits plus ≡ some r
    → r.0 ≡ digits ++ filter is_ascii_digit t
unfolding scan
scan_reads [] digits plus r h = ground (arith, h, append-nil digits)
scan_reads (c ∷ t) digits plus r h = ground (
  arith,
  h,
  digit-is_separator c,
  append_assoc digits (c ∷ []) (filter is_ascii_digit t),
  scan_reads t digits plus r,
  scan_reads t digits true r,
  scan_reads t (digits ++ c ∷ []) plus r,
)

filter-all_digits : (t : Text) → all_digits (filter is_ascii_digit t) ≡ true
unfolding all_digits
filter-all_digits [] = refl
filter-all_digits (c ∷ t) = ground (arith, filter-all_digits t)

module _ (number digits : Text) (plus : Bool) (h : accept (some (digits, plus)) ≡ some number) where
  accept-spelled : number ≡ plus_sign ∷ digits
  unfolding accept
  accept-spelled = ground (arith, h)

  accept-bounds : (min_digits ≤ length digits) × (length digits ≤ max_digits)
  unfolding accept
  accept-bounds = ground (arith, h)

  accept-no_zero : starts_with_zero digits ≡ false
  unfolding accept
  accept-no_zero = ground (arith, h)

accept-IsCanonical :
    (number digits : Text) (plus : Bool)
    → all_digits digits ≡ true
    → accept (some (digits, plus)) ≡ some number
    → IsCanonical number
accept-IsCanonical number digits plus are_digits h = record {
  digits = digits;
  spelled = accept-spelled number digits plus h;
  are_digits = are_digits;
  enough = (accept-bounds number digits plus h).0;
  few = (accept-bounds number digits plus h).1;
  no_zero = accept-no_zero number digits plus h;
}

normalize-scan :
    (input number : Text)
    → normalize input ≡ some number
    → (r : Text × Bool) × (scan input [] false ≡ some r) × (accept (some r) ≡ some number)
unfolding normalize accept
normalize-scan input number h = elim (Option-cases (scan input [] false)) [
  | inl e ↦ absurd (ground (arith, h, e))
  | inr (r, e) ↦ (r, e, ground (arith, h, e))
]

-- A number that is accepted is canonical, and its digits are the digits of the input in their
-- order.
pub normalize-IsCanonical :
    (input number : Text)
    → normalize input ≡ some number
    → (IsCanonical number) × (number ≡ plus_sign ∷ filter is_ascii_digit input)
normalize-IsCanonical input number h =
    let ((digits, plus), scanned, accepted) = normalize-scan input number h in
    let reads : digits ≡ filter is_ascii_digit input =
      scan_reads input [] false (digits, plus) scanned in
    let are_digits : all_digits digits ≡ true = rw reads (filter-all_digits input) in
    (
      accept-IsCanonical number digits plus are_digits accepted,
      accept-spelled number digits plus accepted ∙ ap (λ t. plus_sign ∷ t) reads,
    )

scan-canonical :
    (digits : Text)
    → all_digits digits ≡ true
    → scan (plus_sign ∷ digits) [] false ≡ some (digits, true)
unfolding scan is_separator
scan-canonical digits h = scan_digits digits [] true h

-- A canonical number is accepted as it stands, so that normalizing twice is normalizing once.
pub canonical-normalize : (number : Text) → IsCanonical number → normalize number ≡ some number
unfolding normalize accept
canonical-normalize number c =
    rw (c.spelled, scan-canonical c.digits c.are_digits)
      (ground (arith, c.enough, c.few, c.no_zero))
