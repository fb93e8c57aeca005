-- ===== src/TwoFactor/Codes/Spelling.antt =====
-- The one spelling of a recovery code.
use effect_auth.Prelude.{
  ℕ, zero, suc, ◌+◌, ◌*◌, ◌≤◌, ◌<◌, ◌%◌, ◌≡◌, refl, ap, sym, ◌∙◌, inl, inr, Bool, true, not, ◌&&◌,
  ◌||◌, List, [], ◌∷◌, ◌++◌, Memᴰ, append_assoc, Text, nat_eq, arith, All, contains_sound,
  contains_complete, take, drop, length, ltb, ◌==◌, Bool-cases,
}
use effect_auth.TwoFactor.Codes.{
  alphabet, code_length, group_size, separator, groups_from, join_rest, join, format, upper_ascii,
  is_letter, reads_as, fold_characters, to_upper, normalise, letter_at, random_at, letters_from,
  codes_from, generate,
}

-- Every character is of the alphabet.
abbrev pub IsCode : Text → Type 0
IsCode [] = Unit
IsCode (c ∷ s) = (is_letter c ≡ true) × IsCode s

IsCode-append : (s t : Text) → IsCode s → IsCode t → IsCode (s ++ t)
IsCode-append [] t h k = k
IsCode-append (c ∷ s) t h k = (h.0, IsCode-append s t h.1 k)

IsCode-take : (n : ℕ) (s : Text) → IsCode s → IsCode (take n s)
IsCode-take zero s h = tt
IsCode-take (suc n) [] h = tt
IsCode-take (suc n) (c ∷ s) h = (h.0, IsCode-take n s h.1)

IsCode-drop : (n : ℕ) (s : Text) → IsCode s → IsCode (drop n s)
IsCode-drop zero s h = h
IsCode-drop (suc n) [] h = tt
IsCode-drop (suc n) (c ∷ s) h = IsCode-drop n s h.1

-- A character that reading back leaves as it is.
is_plain : ℕ → Bool
is_plain c = ltb c 128 && upper_ascii c == c && not (c == 79) && not (c == 73 || c == 76)

all_plain : Text → Bool
all_plain [] = true
all_plain (c ∷ s) = is_plain c && all_plain s

alphabet_plain : all_plain alphabet ≡ true
unfolding all_plain is_plain
alphabet_plain = refl

memᴰ-plain : (s : Text) (c : ℕ) → Memᴰ c s → all_plain s ≡ true → is_plain c ≡ true
unfolding all_plain
memᴰ-plain [] c m h = elim m [ ]
memᴰ-plain (d ∷ s) c (Memᴰ.head q) h = ap is_plain q ∙ ground arith
memᴰ-plain (d ∷ s) c (Memᴰ.tail m) h = memᴰ-plain s c m (ground arith)

letter-plain : (c : ℕ) → is_letter c ≡ true → is_plain c ≡ true
unfolding is_letter
letter-plain c h = memᴰ-plain alphabet c (contains_sound alphabet c h) alphabet_plain

-- A letter is read as itself, in upper case already.
letter_reads : (c : ℕ) → is_letter c ≡ true → reads_as c ≡ c ∷ []
unfolding reads_as is_plain
letter_reads c h = ground (arith, letter-plain c h, h)

letter_upper : (c : ℕ) → is_letter c ≡ true → (ltb c 128 ≡ true) × (upper_ascii c ≡ c)
unfolding is_plain
letter_upper c h = ground (arith, letter-plain c h)

digit_letters : (is_letter 48 ≡ true) × (is_letter 49 ≡ true)
unfolding is_letter
digit_letters = (refl, refl)

reads_as-IsCode : (c : ℕ) → IsCode (reads_as c)
unfolding reads_as
reads_as-IsCode c = elim (Bool-cases (c == 79)) [
  | inl e ↦ rw e (digit_letters.0, tt)
  | inr e ↦ elim (Bool-cases (c == 73 || c == 76)) [
    | inl q ↦ rw e (rw q (digit_letters.1, tt))
    | inr q ↦ elim (Bool-cases (is_letter c)) [
      | inl l ↦ rw e (rw q (rw l (l, tt)))
      | inr l ↦ rw e (rw q (rw l tt))
    ]
  ]
]

fold-IsCode : (s : Text) → IsCode (fold_characters s)
unfolding fold_characters
fold-IsCode [] = tt
fold-IsCode (c ∷ s) =
    IsCode-append (reads_as c) (fold_characters s) (reads_as-IsCode c) (fold-IsCode s)

fold-append : (s t : Text) → fold_characters (s ++ t) ≡ fold_characters s ++ fold_characters t
unfolding fold_characters
fold-append [] t = refl
fold-append (c ∷ s) t =
    rw (fold-append s t) (sym (append_assoc (reads_as c) (fold_characters s) (fold_characters t)))

separator_vanishes : fold_characters separator ≡ []
unfolding fold_characters reads_as is_letter
separator_vanishes = refl

drop_past : (n : ℕ) (s : Text) → length s ≤ n → drop n s ≡ []
drop_past zero [] le = refl
drop_past zero (c ∷ s) le = absurd (omega arith)
drop_past (suc n) [] le = refl
drop_past (suc n) (c ∷ s) le = drop_past n s (omega arith)

drop_nothing : (n : ℕ) → ◌≡◌ {A = Text} (drop n []) []
drop_nothing zero = refl
drop_nothing (suc n) = refl

drop_more : (n k : ℕ) (s : Text) → drop (n + k) s ≡ drop k (drop n s)
drop_more zero k s = ap (λ m. drop m s) (omega arith)
drop_more (suc n) k [] = drop_nothing (suc n + k) ∙ sym (drop_nothing k)
drop_more (suc n) k (c ∷ s) = ap (λ m. drop m (c ∷ s)) (suc_plus n k) ∙ drop_more n k s
  where
    suc_plus : (n k : ℕ) → suc n + k ≡ suc (n + k)
    suc_plus n k = omega arith

take-drop : (n : ℕ) (s : Text) → take n s ++ drop n s ≡ s
take-drop zero s = refl
take-drop (suc n) [] = refl
take-drop (suc n) (c ∷ s) = ap (λ t. c ∷ t) (take-drop n s)

letter_at-memᴰ : (i : ℕ) (s : Text) → i < length s → Memᴰ (letter_at i s) s
unfolding letter_at
letter_at-memᴰ i [] h = absurd (omega arith)
letter_at-memᴰ zero (c ∷ s) h = Memᴰ.head refl
letter_at-memᴰ (suc i) (c ∷ s) h = Memᴰ.tail (letter_at-memᴰ i s (omega arith))

letter_at-IsLetter : (i : ℕ) → is_letter (letter_at (i % 32) alphabet) ≡ true
unfolding is_letter
letter_at-IsLetter i =
    contains_complete alphabet (letter_at (i % 32) alphabet)
      (letter_at-memᴰ (i % 32) alphabet (omega arith))

letters_from-IsCode :
    (count position : ℕ) (bytes : List ℕ)
    → (length (letters_from count position bytes) ≡ count)
      × IsCode (letters_from count position bytes)
unfolding letters_from
letters_from-IsCode zero position bytes = (refl, tt)
letters_from-IsCode (suc count) position bytes =
    let (long, code) = letters_from-IsCode count (suc position) bytes in
    (omega (arith, long), (letter_at-IsLetter (random_at position bytes), code))

module _ (upper_other : ℕ → Text) where
  to_upper-append :
      (s t : Text)
      → to_upper upper_other (s ++ t) ≡ to_upper upper_other s ++ to_upper upper_other t
  unfolding to_upper
  to_upper-append [] t = refl
  to_upper-append (c ∷ s) t = elim (Bool-cases (ltb c 128)) [
    | inl e ↦ rw e (rw (to_upper-append s t) refl)
    | inr e ↦ rw e (rw (to_upper-append s t) (sym (append_assoc (upper_other c) _ _)))
  ]

  normalise-append :
      (s t : Text)
      → normalise upper_other (s ++ t) ≡ normalise upper_other s ++ normalise upper_other t
  unfolding normalise
  normalise-append s t =
      rw (to_upper-append s t) (fold-append (to_upper upper_other s) (to_upper upper_other t))

  normalise_code : (s : Text) → IsCode s → normalise upper_other s ≡ s
  unfolding normalise to_upper fold_characters
  normalise_code [] h = refl
  normalise_code (c ∷ s) h =
      let (ascii, upper) = letter_upper c h.0 in
      rw ascii (rw upper (rw (letter_reads c h.0) (rw (normalise_code s h.1) refl)))

  normalise-separator :
      (s : Text) → normalise upper_other (separator ++ s) ≡ normalise upper_other s
  unfolding normalise to_upper
  normalise-separator s =
      rw (fold-append separator (to_upper upper_other s)) (rw separator_vanishes refl)

  group-normalise :
      (at : ℕ) (rest : List Text) (code : Text)
      → IsCode code
      → normalise upper_other (join_rest rest) ≡ drop (at + group_size) code
      → normalise upper_other (take group_size (drop at code) ++ join_rest rest) ≡ drop at code
  group-normalise at rest code h e =
      normalise-append (take group_size (drop at code)) (join_rest rest)
      ∙ ap (λ t. t ++ normalise upper_other (join_rest rest))
          (normalise_code (take group_size (drop at code))
            (IsCode-take group_size _ (IsCode-drop at code h)))
      ∙ ap (λ t. take group_size (drop at code) ++ t) (e ∙ drop_more at group_size code)
      ∙ take-drop group_size (drop at code)

  groups-normalise :
      (fuel at : ℕ) (code : Text)
      → IsCode code
      → length code ≤ at + fuel
      → (normalise upper_other (join_rest (groups_from fuel at code)) ≡ drop at code)
        × (normalise upper_other (join (groups_from fuel at code)) ≡ drop at code)
  unfolding groups_from join_rest
  groups-normalise zero at code h le =
      rw (drop_past at code (omega arith)) (normalise_code [] tt, normalise_code [] tt)
  groups-normalise (suc fuel) at code h le = elim (Bool-cases (ltb at (length code))) [
    | inl e ↦
        let rest = (groups-normalise fuel (at + group_size) code h (omega arith)).0 in
        let whole = group-normalise at (groups_from fuel (at + group_size) code) code h rest in
        rw e (normalise-separator _ ∙ whole, whole)
    | inr e ↦
        rw e (rw (drop_past at code (ground arith)) (normalise_code [] tt, normalise_code [] tt))
  ]

  normalise-format : (code : Text) → IsCode code → normalise upper_other (format code) ≡ code
  unfolding format
  normalise-format code h = (groups-normalise (length code) 0 code h (omega arith)).1

  abbrev pub IsMinted : Text → Type 0
  IsMinted code = (length code ≡ 12) × IsCode code × (normalise upper_other (format code) ≡ code)

  minted : (count index : ℕ) (bytes : List ℕ) → All IsMinted (codes_from count index bytes)
  unfolding codes_from
  minted zero index bytes = tt
  minted (suc count) index bytes =
      let (long, code) = letters_from-IsCode code_length (index * code_length) bytes in
      ((long, code, normalise-format _ code), minted count (suc index) bytes)

  normalise-IsCode : (s : Text) → IsCode (normalise upper_other s)
  unfolding normalise
  normalise-IsCode s = fold-IsCode (to_upper upper_other s)

  -- Whatever is typed, what is read is spelled in the alphabet, and reading it again changes
  -- nothing; and each of the codes that are minted, whatever the random bytes, has twelve
  -- characters of the alphabet and is read back from its printed form.
  pub normalise-generate :
      (input : Text) (count : ℕ) (bytes : List ℕ)
      → IsCode (normalise upper_other input)
        × (normalise upper_other (normalise upper_other input) ≡ normalise upper_other input)
        × All IsMinted (generate count bytes)
  normalise-generate input count bytes = (
    normalise-IsCode input,
    normalise_code (normalise upper_other input) (normalise-IsCode input),
    minted count 0 bytes,
  )
