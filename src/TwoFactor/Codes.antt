-- ===== src/TwoFactor/Codes.antt =====
-- src/two-factor/RecoveryCodes.ts: how a recovery code is printed and how one is read back. The
-- parameter `upper_other` is what `toUpperCase` makes of a character beyond ASCII.
pub mod Spelling
use effect_auth.Prelude.{
  ℕ, zero, suc, ◌+◌, ◌-◌, ◌*◌, ◌%◌, Bool, true, false, ◌&&◌, ◌||◌, List, [], ◌∷◌, ◌++◌, Text,
  nat_eq, codes, contains, take, drop, length, ltb, leb, ◌==◌, if◌then◌else◌,
}

abbrev pub alphabet : Text
alphabet = codes "0123456789ABCDEFGHJKMNPQRSTVWXYZ"

abbrev pub code_length : ℕ
code_length = 12

abbrev pub group_size : ℕ
group_size = 4

abbrev pub separator : Text
separator = codes "-"

-- The loop of `format`, from the position `at` on.
unfoldable pub groups_from : ℕ → ℕ → Text → List Text
groups_from zero at code = []
groups_from (suc fuel) at code =
    let rest = groups_from fuel (at + group_size) code in
    if ltb at (length code) then take group_size (drop at code) ∷ rest else []

unfoldable pub join_rest : List Text → Text
join_rest [] = []
join_rest (group ∷ groups) = separator ++ group ++ join_rest groups

-- `groups.join(separator)`
abbrev pub join : List Text → Text
join [] = []
join (group ∷ groups) = group ++ join_rest groups

unfoldable pub format : Text → Text
format code = join (groups_from (length code) 0 code)

abbrev pub upper_ascii : ℕ → ℕ
upper_ascii c = if leb 97 c && leb c 122 then c - 32 else c

-- `alphabet.includes(character)`
unfoldable pub is_letter : ℕ → Bool
is_letter c = contains alphabet c

-- What the loop of `normalise` adds for a character in upper case.
unfoldable pub reads_as : ℕ → Text
reads_as c =
    if c == 79
    then 48 ∷ []
    else if c == 73 || c == 76
    then 49 ∷ []
    else if is_letter c
    then c ∷ []
    else []

unfoldable pub fold_characters : Text → Text
fold_characters [] = []
fold_characters (c ∷ s) = reads_as c ++ fold_characters s

module _ (upper_other : ℕ → Text) where
  -- `toUpperCase`
  unfoldable pub to_upper : Text → Text
  to_upper [] = []
  to_upper (c ∷ s) =
      let rest = to_upper s in if ltb c 128 then upper_ascii c ∷ rest else upper_other c ++ rest

  unfoldable pub normalise : Text → Text
  normalise input = fold_characters (to_upper input)

-- The code unit of the alphabet at an index below 32, which `& 0x1f` gives.
unfoldable pub letter_at : ℕ → Text → ℕ
letter_at i [] = 0
letter_at zero (c ∷ rest) = c
letter_at (suc i) (c ∷ rest) = letter_at i rest

unfoldable pub random_at : ℕ → List ℕ → ℕ
random_at i [] = 0
random_at zero (b ∷ bytes) = b
random_at (suc i) (b ∷ bytes) = random_at i bytes

unfoldable pub letters_from : ℕ → ℕ → List ℕ → Text
letters_from zero position bytes = []
letters_from (suc count) position bytes =
    letter_at (random_at position bytes % 32) alphabet ∷ letters_from count (suc position) bytes

unfoldable pub codes_from : ℕ → ℕ → List ℕ → List Text
codes_from zero index bytes = []
codes_from (suc count) index bytes =
    letters_from code_length (index * code_length) bytes ∷ codes_from count (suc index) bytes

-- `generate`, of the random bytes.
abbrev pub generate : ℕ → List ℕ → List Text
generate count bytes = codes_from count 0 bytes
