-- ===== src/E164/Country.antt =====
-- Which of the country codes that a deployment serves a number belongs to.
use effect_auth.Prelude.{
  ℕ, ◌≡◌, ◌≤◌, refl, ap, sym, subst, ◌↔◌, ◌∙◌, inl, inr, true, false, ◌&&◌, Option, none, some,
  List, [], ◌∷◌, Text, Memᴰ, arith, length, Bool-cases, Option-cases,
}
use effect_auth.E164.{
  digits_of, is_calling_code, starts_with, is_longer, longest, country_code_of, is_allowed,
}

some_injective : {a b : Text} → ◌≡◌ {A = Option Text} (some a) (some b) → a ≡ b
some_injective {a = a} h = ap (λ o. elim o [ none ↦ a | some x ↦ x ]) h

-- A code that is listed, is one, and is what the digits start with.
pub record IsServed (allowed : List Text) (digits code : Text) : Type 0 where
  pub listed : Memᴰ code allowed
  pub is_code : is_calling_code code ≡ true
  pub matches : starts_with digits code ≡ true

-- Something at least as long is found.
abbrev Finds : List Text → Text → Option Text → ℕ → Type 0
Finds allowed digits best n =
    (found : Text) × (longest allowed digits best ≡ some found) × (n ≤ length found)

longest-skip :
    (candidate : Text) (allowed : List Text) (digits : Text) (best : Option Text)
    → (is_calling_code candidate && starts_with digits candidate && is_longer candidate best)
      ≡ false
    → longest (candidate ∷ allowed) digits best ≡ longest allowed digits best
unfolding longest
longest-skip candidate allowed digits best h = ground (arith, h)

longest-take :
    (candidate : Text) (allowed : List Text) (digits : Text) (best : Option Text)
    → (is_calling_code candidate && starts_with digits candidate && is_longer candidate best) ≡ true
    → longest (candidate ∷ allowed) digits best ≡ longest allowed digits (some candidate)
unfolding longest
longest-take candidate allowed digits best h = ground (arith, h)

longest_grows :
    (allowed : List Text) (digits best : Text) → Finds allowed digits (some best) (length best)
unfolding longest
longest_grows [] digits best = (best, refl, omega arith)
longest_grows (candidate ∷ allowed) digits best =
    elim (Bool-cases (
      is_calling_code candidate
      && starts_with digits candidate
      && is_longer candidate (some best))) [
        | inl e ↦
            let (found, is_found, longer) = longest_grows allowed digits candidate in
            (
              found,
              longest-take candidate allowed digits (some best) e ∙ is_found,
              ground (arith, e, longer),
            )
        | inr e ↦
            let (found, is_found, longer) = longest_grows allowed digits best in
            (found, longest-skip candidate allowed digits (some best) e ∙ is_found, longer)
      ]

longest_meets :
    (candidate : Text) (allowed : List Text) (digits : Text) (best : Option Text)
    → is_calling_code candidate ≡ true
    → starts_with digits candidate ≡ true
    → Finds (candidate ∷ allowed) digits best (length candidate)
longest_meets candidate allowed digits none is_code matches =
    let (found, is_found, longer) = longest_grows allowed digits candidate in
    (
      found,
      longest-take candidate allowed digits none (ground (arith, is_code, matches)) ∙ is_found,
      longer,
    )
longest_meets candidate allowed digits (some best) is_code matches =
    elim (Bool-cases (is_longer candidate (some best))) [
      | inl e ↦
          let (found, is_found, longer) = longest_grows allowed digits candidate in
          (
            found,
            longest-take candidate allowed digits (some best) (ground (arith, is_code, matches, e))
                ∙ is_found,
            longer,
          )
      | inr e ↦
          let (found, is_found, longer) = longest_grows allowed digits best in
          (
            found,
            longest-skip candidate allowed digits (some best) (ground (arith, is_code, matches, e))
                ∙ is_found,
            ground (arith, e, longer),
          )
    ]

longest_covers :
    (allowed : List Text) (digits : Text) (best : Option Text) (code : Text)
    → is_calling_code code ≡ true
    → starts_with digits code ≡ true
    → Memᴰ code allowed
    → Finds allowed digits best (length code)
longest_covers [] digits best code is_code matches m = elim m [ ]
longest_covers (candidate ∷ allowed) digits best code is_code matches (Memᴰ.head e) =
    subst (λ c. Finds (candidate ∷ allowed) digits best (length c)) (sym e)
      (longest_meets candidate allowed digits best (subst (λ c. is_calling_code c ≡ true) e is_code)
        (subst (λ c. starts_with digits c ≡ true) e matches))
longest_covers (candidate ∷ allowed) digits best code is_code matches (Memᴰ.tail m) =
    elim (Bool-cases
      (is_calling_code candidate && starts_with digits candidate && is_longer candidate best)) [
        | inl e ↦
            let (found, is_found, longer) =
              longest_covers allowed digits (some candidate) code is_code matches m in
            (found, longest-take candidate allowed digits best e ∙ is_found, longer)
        | inr e ↦
            let (found, is_found, longer) =
              longest_covers allowed digits best code is_code matches m in
            (found, longest-skip candidate allowed digits best e ∙ is_found, longer)
      ]

longest_sound :
    (listed allowed : List Text) (digits found : Text) (best : Option Text)
    → ((code : Text) → best ≡ some code → IsServed listed digits code)
    → ((code : Text) → Memᴰ code allowed → Memᴰ code listed)
    → longest allowed digits best ≡ some found
    → IsServed listed digits found
unfolding longest
longest_sound listed [] digits found best served within h = served found h
longest_sound listed (candidate ∷ allowed) digits found best served within h =
    elim (Bool-cases
      (is_calling_code candidate && starts_with digits candidate && is_longer candidate best)) [
        | inl e ↦
            longest_sound listed allowed digits found (some candidate)
              (λ code q. subst (IsServed listed digits) (some_injective q) (record {
                listed = within candidate (Memᴰ.head refl);
                is_code = ground (arith, e);
                matches = ground (arith, e);
              }))
              (λ code m. within code (Memᴰ.tail m))
              (sym (longest-take candidate allowed digits best e) ∙ h)
        | inr e ↦
            longest_sound listed allowed digits found best served
              (λ code m. within code (Memᴰ.tail m))
              (sym (longest-skip candidate allowed digits best e) ∙ h)
      ]

-- The country of a number is one of the codes that the deployment lists and that the number starts
-- with, and no such code is longer, whatever order they are listed in.
pub country_code_of_longest :
    (allowed : List Text) (e164 found : Text)
    → country_code_of allowed e164 ≡ some found
    → (IsServed allowed (digits_of e164) found)
      × ((code : Text) → IsServed allowed (digits_of e164) code → length code ≤ length found)
unfolding country_code_of
country_code_of_longest allowed e164 found h = (
  longest_sound allowed allowed (digits_of e164) found none (λ code q. cc) (λ code m. m) h,
  λ code served.
      let (other, is_other, longer) =
        longest_covers allowed (digits_of e164) none code served.is_code served.matches
          served.listed in
      subst (λ c. length code ≤ length c) (some_injective (sym is_other ∙ h)) longer,
)

-- A number is refused exactly where no listed code is one that it starts with.
pub is_allowed_iff :
    (allowed : List Text) (e164 : Text)
    → (is_allowed allowed e164 ≡ true) ↔ ((code : Text) × IsServed allowed (digits_of e164) code)
unfolding is_allowed country_code_of
is_allowed_iff allowed e164 = (
  (λ h. elim (Option-cases (longest allowed (digits_of e164) none)) [
    | inl e ↦ cc (rw (is_allowed, e) at h)
    | inr (found, e) ↦ (
      found,
      longest_sound allowed allowed (digits_of e164) found none (λ code q. cc) (λ code m. m) e,
    )
  ]),
  (λ (code, served).
      let (found, is_found, longer) =
        longest_covers allowed (digits_of e164) none code served.is_code served.matches
          served.listed in
      rw (is_allowed, is_found) refl),
)
