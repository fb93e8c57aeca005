-- ===== src/Totp/Answers.antt =====
-- What a check of a code answers.
use effect_auth.Prelude.{
  ℕ, ◌≡◌, ◌≢◌, inl, inr, refl, ap, sym, ◌∙◌, Bool, true, false, not, ◌||◌, Option, none, some, List,
  [], ◌∷◌, Memᴰ, map, Text, nat_eq, arith, length, ◌==◌, Bool-cases, nat_beq_iff,
}
use effect_auth.Prelude.Int.{ℤ}
use effect_auth.Runtime.{ok}
use effect_auth.Totp.{
  Algorithm, VerifyOptions, default_digits, default_window, default_period, default_algorithm,
  given_or, candidates, is_empty_list, matched, equal_codes, truncate, code_for, verify, step_at,
  valid_digits,
}
use effect_auth.Totp.Compare.{equal_codes_iff}
use effect_auth.Totp.Window.{
  AtMost, IsNear, IsUnused, Ascending, candidates_iff, candidates-Ascending, length-padded,
}

module _ (code : Text) (f : ℤ → Text) where
  -- The first of the steps with the code, or none.
  abbrev IsFirst : List ℤ → Option ℤ → Type 0
  IsFirst steps none = (t : ℤ) → Memᴰ t steps → f t ≢ code
  IsFirst steps (some s) =
      Memᴰ s steps × (f s ≡ code) × ((t : ℤ) → Memᴰ t steps → f t ≡ code → AtMost s t)

  matched_stays :
      (steps : List ℤ) (expected : List Text) (s : ℤ)
      → matched code steps expected (some s) ≡ some s
  unfolding matched
  matched_stays [] expected s = refl
  matched_stays (t ∷ steps) [] s = refl
  matched_stays (t ∷ steps) (c ∷ expected) s = elim (Bool-cases (equal_codes code c)) [
    | inl e ↦ rw e (matched_stays steps expected s)
    | inr e ↦ rw e (matched_stays steps expected s)
  ]

  IsFirst-later :
      (s : ℤ) (steps : List ℤ) (r : Option ℤ)
      → f s ≢ code
      → ((t : ℤ) → Memᴰ t steps → AtMost s t)
      → IsFirst steps r
      → IsFirst (s ∷ steps) r
  IsFirst-later s steps none ne lo h = go
    where
      go : (t : ℤ) → Memᴰ t (s ∷ steps) → f t ≢ code
      go t (Memᴰ.head q) = rw q ne
      go t (Memᴰ.tail o) = h t o
  IsFirst-later s steps (some r) ne lo (m, e, least) = (Memᴰ.tail m, e, go)
    where
      go : (t : ℤ) → Memᴰ t (s ∷ steps) → f t ≡ code → AtMost r t
      go t (Memᴰ.head q) p = absurd (ne (ap f (sym q) ∙ p))
      go t (Memᴰ.tail o) p = least t o p

  matched-IsFirst :
      (steps : List ℤ) → Ascending steps → IsFirst steps (matched code steps (map f steps) none)
  unfolding matched
  matched-IsFirst [] h = λ t m. elim m [ ]
  matched-IsFirst (s ∷ steps) h = elim (Bool-cases (equal_codes code (f s))) [
    | inl e ↦
        let same = (equal_codes_iff code (f s)).0 e in
        rw e
          (rw (matched_stays steps (map f steps) s) (Memᴰ.head refl, sym same, λ t m p. least t m))
    | inr e ↦ rw e (
        IsFirst-later s steps (matched code steps (map f steps) none) (λ p. absurd (differs e p))
          h.0 (matched-IsFirst steps h.1))
  ]
    where
      least : (t : ℤ) → Memᴰ t (s ∷ steps) → AtMost s t
      least t (Memᴰ.head q) = rw q (omega arith)
      least t (Memᴰ.tail o) = h.0 t o

      differs : equal_codes code (f s) ≡ false → f s ≡ code → ⊥
      differs e p = cc (e, (equal_codes_iff code (f s)).1 (sym p))

module _ (sign : Algorithm → List ℕ → List ℕ → List ℕ) where
  abbrev expected_code : VerifyOptions → ℤ → Text
  expected_code options step =
      code_for sign (given_or default_algorithm options.algorithm) options.secret step
        (given_or default_digits options.digits)

  -- The step is within the window of the moment, after the last one used, and has this code.
  pub record IsAnswer (options : VerifyOptions) (step : ℤ) : Type 0 where
    pub near :
        IsNear
          (step_at options.now (given_or default_period options.period))
          (given_or default_window options.window)
          step
    pub unused : IsUnused options.last_used_step step
    pub same : expected_code options step ≡ options.code

  abbrev pub IsEarliest : VerifyOptions → Option ℤ → Type 0
  IsEarliest options none = (t : ℤ) → ¬ IsAnswer options t
  IsEarliest options (some s) = IsAnswer options s × ((t : ℤ) → IsAnswer options t → AtMost s t)

  length-code_for :
      (algorithm : Algorithm) (key : List ℕ) (step : ℤ) (digits : ℕ)
      → length (code_for sign algorithm key step digits) ≡ digits
  unfolding code_for truncate
  length-code_for algorithm key step digits = length-padded digits _

  abbrev steps_of : VerifyOptions → List ℤ
  steps_of options =
      candidates (step_at options.now (given_or default_period options.period))
        (given_or default_window options.window) options.last_used_step

  memᴰ-steps_of :
      (options : VerifyOptions) (t : ℤ)
      → Memᴰ t (steps_of options)
      → expected_code options t ≡ options.code
      → IsAnswer options t
  memᴰ-steps_of options t m e =
      let (near, unused) = (candidates_iff _ _ options.last_used_step t).0 m in
      record { near = near; unused = unused; same = e }

  answer-memᴰ : (options : VerifyOptions) (t : ℤ) → IsAnswer options t → Memᴰ t (steps_of options)
  answer-memᴰ options t h = (candidates_iff _ _ options.last_used_step t).1 (h.near, h.unused)

  first-IsEarliest :
      (options : VerifyOptions) (r : Option ℤ)
      → IsFirst options.code (expected_code options) (steps_of options) r
      → IsEarliest options r
  first-IsEarliest options none h = λ t a. h t (answer-memᴰ options t a) a.same
  first-IsEarliest options (some s) (m, e, least) =
      (memᴰ-steps_of options s m e, λ t a. least t (answer-memᴰ options t a) a.same)

  clash : (a b : Bool) → a ≡ false → b ≡ true → (a || not b) ≡ true → ⊥
  clash true b e q h = cc
  clash false true e q h = cc
  clash false false e q h = cc

  -- No step to try, or a code of another length.
  nothing-IsEarliest :
      (options : VerifyOptions)
      → (is_empty_list (steps_of options)
          || not (length options.code == given_or default_digits options.digits))
        ≡ true
      → IsEarliest options none
  nothing-IsEarliest options h = λ t a. elim (Bool-cases (is_empty_list (steps_of options))) [
    | inl e ↦ none_in (steps_of options) e t (answer-memᴰ options t a)
    | inr e ↦
        let long = ap length a.same in
        let right =
          length-code_for (given_or default_algorithm options.algorithm) options.secret t
            (given_or default_digits options.digits) in
        let q =
          (nat_beq_iff (length options.code) (given_or default_digits options.digits)).1
            (sym long ∙ right) in
        clash (is_empty_list (steps_of options)) _ e q h
  ]
    where
      none_in : (steps : List ℤ) → is_empty_list steps ≡ true → (t : ℤ) → ¬ Memᴰ t steps
      none_in [] e t m = elim m [ ]
      none_in (x ∷ steps) e t m = cc

  -- With between six and eight digits the check always answers, and with the earliest step of the
  -- window that comes after the last one used and has the code; with none only where there is no
  -- such step.
  pub verify_exact :
      (options : VerifyOptions)
      → valid_digits (given_or default_digits options.digits) ≡ true
      → (r : Option ℤ) × (verify sign options ≡ ok r) × IsEarliest options r
  unfolding verify
  verify_exact options valid =
      elim (Bool-cases (
        is_empty_list (steps_of options)
        || not (length options.code == given_or default_digits options.digits))) [
          | inl e ↦ (none, rw valid (rw e refl), nothing-IsEarliest options e)
          | inr e ↦ (
            matched options.code (steps_of options) (map (expected_code options) (steps_of options))
                none,
            rw valid (rw e refl),
            first-IsEarliest options _ (
                matched-IsFirst options.code (expected_code options) (steps_of options)
                  (candidates-Ascending _ _ options.last_used_step)),
          )
        ]
