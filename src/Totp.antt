-- ===== src/Totp.antt =====
-- src/crypto/Totp.ts: the codes of RFC 6238 and their check against a window of steps. The MAC of
-- the platform is the parameter `sign`. A step is an integer: a window reaches before the epoch.
mod Bits
mod Compare
pub mod Bytes
pub mod Window
pub mod Answers
mod Tests
use Prim.Native.Nat.{bit_or, bit_xor}
use effect_auth.Prelude.{
  ℕ, zero, suc, ◌+◌, ◌-◌, ◌*◌, ◌/◌, ◌%◌, ◌^◌, Bool, true, false, not, ◌&&◌, ◌||◌, Option, none,
  some, List, [], ◌∷◌, ◌++◌, Text, nat_eq, codes, ltb, ◌==◌, length, map, if◌then◌else◌,
}
use effect_auth.Prelude.Int.{ℤ, pos, negsuc, sub_ℕ, leb_ℤ}
use effect_auth.Runtime.{Result, ok, err, defect}

-- `TotpAlgorithm`
pub data Algorithm : Type 0 where
  sha_1 sha_256 sha_512 : Algorithm

abbrev pub default_algorithm : Algorithm
default_algorithm = sha_1

abbrev pub default_digits : ℕ
default_digits = 6

abbrev pub default_period : ℕ
default_period = 30

abbrev pub default_window : ℕ
default_window = 1

-- `x & 0xff` of an integer in two's complement, and `Math.floor(x / 0x100)`.
abbrev pub low_byte : ℤ → ℕ
low_byte (pos n) = n % 256
low_byte (negsuc n) = 255 - n % 256

abbrev pub without_byte : ℤ → ℤ
without_byte (pos n) = pos (n / 256)
without_byte (negsuc n) = negsuc (n / 256)

-- The loop that writes the bytes of a number from the last to the first.
unfoldable pub bytes_of : ℕ → ℤ → List ℕ
bytes_of zero x = []
bytes_of (suc count) x = bytes_of count (without_byte x) ++ low_byte x ∷ []

-- `Math.floor(counter / 0x100000000)` and `counter >>> 0`
abbrev pub high_half : ℤ → ℤ
high_half (pos n) = pos (n / 2 ^ 32)
high_half (negsuc n) = negsuc (n / 2 ^ 32)

abbrev pub low_half : ℤ → ℤ
low_half (pos n) = pos (n % 2 ^ 32)
low_half (negsuc n) = pos (2 ^ 32 - 1 - n % 2 ^ 32)

unfoldable pub counter_bytes : ℤ → List ℕ
counter_bytes counter = bytes_of 4 (high_half counter) ++ bytes_of 4 (low_half counter)

-- A byte out of range is `undefined`, which the bit operations take for zero.
unfoldable pub byte_at : ℕ → List ℕ → ℕ
byte_at i [] = 0
byte_at zero (b ∷ bytes) = b
byte_at (suc i) (b ∷ bytes) = byte_at i bytes

unfoldable pub last_byte : List ℕ → ℕ
last_byte [] = 0
last_byte (b ∷ []) = b
last_byte (b ∷ bytes) = last_byte bytes

-- `String(n).padStart(count, "0")` of a number with at most `count` digits.
unfoldable pub padded : ℕ → ℕ → Text
padded zero n = []
padded (suc count) n = padded count (n / 10) ++ (48 + n % 10) ∷ []

-- The four bytes do not overlap, so that their sum is what `|` makes of them.
unfoldable pub truncate : List ℕ → ℕ → Text
truncate mac digits =
    let offset = last_byte mac % 16 in
    let binary =
      byte_at offset mac % 128 * 2 ^ 24
      + byte_at (offset + 1) mac * 2 ^ 16
      + byte_at (offset + 2) mac * 2 ^ 8
      + byte_at (offset + 3) mac in
    padded digits (binary % 10 ^ digits)

-- The loop over two texts of one length, which goes on after a difference.
unfoldable pub difference : ℕ → Text → Text → ℕ
difference acc (c ∷ s) (d ∷ t) = difference (bit_or acc (bit_xor c d)) s t
difference acc _ _ = acc

unfoldable pub equal_codes : Text → Text → Bool
equal_codes presented expected =
    if not (length presented == length expected)
    then false
    else difference 0 presented expected == 0

unfoldable pub step_at : ℕ → ℕ → ℕ
step_at now period = now / 1000 / period

abbrev pub valid_digits : ℕ → Bool
valid_digits digits = not (ltb digits 6 || ltb 8 digits)

abbrev pub bad_digits : Text
bad_digits = codes "a TOTP code must have between 6 and 8 digits (RFC 4226 §5.3)"

pub record GenerateOptions : Type 0 where
  pub secret : List ℕ
  pub step : ℤ
  pub digits : Option ℕ
  pub algorithm : Option Algorithm

pub record VerifyOptions : Type 0 where
  pub secret : List ℕ
  pub code : Text
  pub now : ℕ
  pub window : Option ℕ
  pub last_used_step : Option ℤ
  pub period : Option ℕ
  pub digits : Option ℕ
  pub algorithm : Option Algorithm

-- `option ?? value`
abbrev pub given_or : {A : Type 0} → A → Option A → A
given_or value none = value
given_or value (some given) = given

abbrev pub is_used : Option ℤ → ℤ → Bool
is_used none step = false
is_used (some last) step = leb_ℤ step last

-- The loop over the window, from the step at the offset on.
unfoldable pub steps_from : ℕ → ℕ → Option ℤ → ℕ → ℕ → List ℤ
steps_from current window last zero offset = []
steps_from current window last (suc count) offset =
    let rest = steps_from current window last count (suc offset) in
    let step = sub_ℕ (current + offset) window in if is_used last step then rest else step ∷ rest

abbrev pub candidates : ℕ → ℕ → Option ℤ → List ℤ
candidates current window last = steps_from current window last (2 * window + 1) 0

abbrev pub is_none : {A : Type 0} → Option A → Bool
is_none none = true
is_none (some _) = false

-- Every code is compared, and the first match stays.
unfoldable pub matched : Text → List ℤ → List Text → Option ℤ → Option ℤ
matched code (step ∷ steps) (expected ∷ rest) found =
    matched code steps rest
      (if equal_codes code expected && is_none found then some step else found)
matched code _ _ found = found

abbrev pub is_empty_list : {A : Type 0} → List A → Bool
is_empty_list [] = true
is_empty_list (_ ∷ _) = false

module _ (sign : Algorithm → List ℕ → List ℕ → List ℕ) where
  unfoldable pub code_for : Algorithm → List ℕ → ℤ → ℕ → Text
  code_for algorithm key counter digits =
      truncate (sign algorithm key (counter_bytes counter)) digits

  unfoldable pub generate : GenerateOptions → Result Text
  generate options =
      let digits = given_or default_digits options.digits in
      if not (valid_digits digits)
      then err (defect bad_digits)
      else ok (
          code_for (given_or default_algorithm options.algorithm) options.secret options.step
            digits)

  unfoldable pub verify : VerifyOptions → Result (Option ℤ)
  verify options =
      let digits = given_or default_digits options.digits in
      let window = given_or default_window options.window in
      let current = step_at options.now (given_or default_period options.period) in
      let steps = candidates current window options.last_used_step in
      let algorithm = given_or default_algorithm options.algorithm in
      let expected = map (λ step. code_for algorithm options.secret step digits) steps in
      if not (valid_digits digits)
      then err (defect bad_digits)
      else if is_empty_list steps || not (length options.code == digits)
      then ok none
      else ok (matched options.code steps expected none)
