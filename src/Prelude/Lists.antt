-- ===== src/Prelude/Lists.antt =====
-- Lists measured by native numbers, Boolean searches, and JavaScript's `Set` as a list of distinct
-- elements in the order of insertion.
use Prim.Native.Nat.{ℕ, zero, suc, ◌+◌, ◌≤◌}
use mathlib.Core.Path.{◌≡◌, refl, sym, ap, ◌∙◌, subst}
use mathlib.Core.Logic.{◌↔◌, ◌⊎◌, inl, inr}
use mathlib.Core.Bool.{Bool, true, false, ◌||◌}
use mathlib.Core.Option.{Option, none, some}
use mathlib.Core.List.{List, [], ◌∷◌, ◌++◌, Memᴰ}
use native.Mathlib.Omega.{arith}
use effect_auth.Prelude.Tests.{EqTest, ◌==◌, if◌then◌else◌, Bool-cases}

module _ {ℓ} {A : Type ℓ} where
  abbrev pub length : List A → ℕ
  length [] = 0
  length (x ∷ xs) = suc (length xs)

  pub length-append : (xs ys : List A) → length (xs ++ ys) ≡ length xs + length ys
  length-append [] ys = omega arith
  length-append (x ∷ xs) ys = omega (arith, length-append xs ys)

  abbrev pub head? : List A → Option A
  head? [] = none
  head? (x ∷ xs) = some x

  abbrev pub any : (A → Bool) → List A → Bool
  any p [] = false
  any p (x ∷ xs) = p x || any p xs

  abbrev pub filter : (A → Bool) → List A → List A
  filter p [] = []
  filter p (x ∷ xs) = let rest = filter p xs in if p x then x ∷ rest else rest

module _ {ℓ} {A : Type ℓ} where
  abbrev pub take : ℕ → List A → List A
  take zero xs = []
  take (suc n) [] = []
  take (suc n) (x ∷ xs) = x ∷ take n xs

  abbrev pub drop : ℕ → List A → List A
  drop zero xs = xs
  drop (suc n) [] = []
  drop (suc n) (x ∷ xs) = drop n xs

  pub take-length-append : (xs ys : List A) → take (length xs) (xs ++ ys) ≡ xs
  take-length-append [] ys = refl
  take-length-append (x ∷ xs) ys = ap (λ t. x ∷ t) (take-length-append xs ys)

  pub drop-length-append : (xs ys : List A) → drop (length xs) (xs ++ ys) ≡ ys
  drop-length-append [] ys = refl
  drop-length-append (x ∷ xs) ys = drop-length-append xs ys

abbrev pub All {ℓ κ} : {A : Type ℓ} → (A → Type κ) → List A → Type κ
All P [] = Unit
All P (x ∷ xs) = P x × All P xs

module _ {ℓ} {A : Type ℓ} (p : A → Bool) where
  pub any_sound : (xs : List A) → any p xs ≡ true → (a : A) × Memᴰ a xs × (p a ≡ true)
  any_sound [] h = absurd (cc)
  any_sound (x ∷ xs) h = elim (Bool-cases (p x)) [
    | inl e ↦ (x, Memᴰ.head refl, e)
    | inr e ↦ let (a, o, q) = any_sound xs (rw e at h) in (a, Memᴰ.tail o, q)
  ]

  pub any_complete : (xs : List A) (a : A) → Memᴰ a xs → p a ≡ true → any p xs ≡ true
  any_complete [] a m h = elim m [ ]
  any_complete (x ∷ xs) a (Memᴰ.head e) h = ground (arith, ap p e)
  any_complete (x ∷ xs) a (Memᴰ.tail o) h = ground (arith, any_complete xs a o h)

  pub any-append : (xs ys : List A) → any p (xs ++ ys) ≡ (any p xs || any p ys)
  any-append [] ys = refl
  any-append (x ∷ xs) ys = ground (arith, any-append xs ys)

  pub memᴰ_of_filter : (xs : List A) (a : A) → Memᴰ a (filter p xs) → Memᴰ a xs × (p a ≡ true)
  memᴰ_of_filter [] a o = elim o [ ]
  memᴰ_of_filter (x ∷ xs) a o = elim (Bool-cases (p x)) [
    | inl e ↦ from_cons e (memᴰ_of_filter xs a) (rw e at o)
    | inr e ↦ let s = memᴰ_of_filter xs a (rw e at o) in (Memᴰ.tail s.0, s.1)
  ]
    where
      from_cons :
          p x ≡ true
          → (Memᴰ a (filter p xs) → Memᴰ a xs × (p a ≡ true))
          → Memᴰ a (x ∷ filter p xs)
          → Memᴰ a (x ∷ xs) × (p a ≡ true)
      from_cons e rec (Memᴰ.head q) = (Memᴰ.head q, ap p q ∙ e)
      from_cons e rec (Memᴰ.tail t) = let s = rec t in (Memᴰ.tail s.0, s.1)

  pub memᴰ-filter : (xs : List A) (a : A) → Memᴰ a xs → p a ≡ true → Memᴰ a (filter p xs)
  memᴰ-filter [] a m h = elim m [ ]
  memᴰ-filter (x ∷ xs) a (Memᴰ.head q) h = rw (sym (ap p q) ∙ h) (Memᴰ.head q)
  memᴰ-filter (x ∷ xs) a (Memᴰ.tail t) h = elim (Bool-cases (p x)) [
    | inl e ↦ rw e (Memᴰ.tail (memᴰ-filter xs a t h))
    | inr e ↦ rw e (memᴰ-filter xs a t h)
  ]

  pub filter-append : (xs ys : List A) → filter p (xs ++ ys) ≡ filter p xs ++ filter p ys
  filter-append [] ys = refl
  filter-append (x ∷ xs) ys = ground (arith, filter-append xs ys)

  pub length-filter : (xs : List A) → length (filter p xs) ≤ length xs
  length-filter [] = omega arith
  length-filter (x ∷ xs) = ground (arith, length-filter xs)

module _ {ℓ} {A : Type ℓ} ⦃e : EqTest A⦄ where
  abbrev pub contains : List A → A → Bool
  contains xs a = any (λ x. x == a) xs

  -- `new Set(...)` and `Set.add`: an element that is there already changes nothing.
  abbrev pub set_add : List A → A → List A
  set_add xs a = if contains xs a then xs else xs ++ a ∷ []

  abbrev pub set_from : List A → List A → List A
  set_from acc [] = acc
  set_from acc (x ∷ xs) = set_from (set_add acc x) xs

  pub length-set_add : (xs : List A) (a : A) → length xs ≤ length (set_add xs a)
  length-set_add xs a = ground (arith, length-append xs (a ∷ []))

  pub length-set_from : (acc xs : List A) → length acc ≤ length (set_from acc xs)
  length-set_from acc [] = omega arith
  length-set_from acc (x ∷ xs) =
      omega (arith, length-set_add acc x, length-set_from (set_add acc x) xs)

module _ {ℓ} {A : Type ℓ} where
  pub memᴰ-append-left : {a : A} {xs : List A} (ys : List A) → Memᴰ a xs → Memᴰ a (xs ++ ys)
  memᴰ-append-left ys (Memᴰ.head e) = Memᴰ.head e
  memᴰ-append-left ys (Memᴰ.tail m) = Memᴰ.tail (memᴰ-append-left ys m)

  pub memᴰ-append-right : {a : A} (xs : List A) {ys : List A} → Memᴰ a ys → Memᴰ a (xs ++ ys)
  memᴰ-append-right [] m = m
  memᴰ-append-right (x ∷ xs) m = Memᴰ.tail (memᴰ-append-right xs m)

  pub memᴰ_of_append :
      {a : A} (xs : List A) {ys : List A} → Memᴰ a (xs ++ ys) → Memᴰ a xs ⊎ Memᴰ a ys
  memᴰ_of_append [] m = inr m
  memᴰ_of_append (x ∷ xs) (Memᴰ.head e) = inl (Memᴰ.head e)
  memᴰ_of_append (x ∷ xs) (Memᴰ.tail m) = elim (memᴰ_of_append xs m) [
    | inl l ↦ inl (Memᴰ.tail l)
    | inr r ↦ inr r
  ]

module _ {ℓ} {A : Type ℓ} ⦃e : EqTest A⦄ where
  pub contains_sound : (xs : List A) (a : A) → contains xs a ≡ true → Memᴰ a xs
  contains_sound xs a h =
      let (b, m, q) = any_sound (λ x. x == a) xs h in
      subst (λ x. Memᴰ x xs) ((e.test_iff b a).0 q) m

  pub contains_complete : (xs : List A) (a : A) → Memᴰ a xs → contains xs a ≡ true
  contains_complete xs a m = any_complete (λ x. x == a) xs a m ((e.test_iff a a).1 refl)

  pub memᴰ-set_add : (xs : List A) (a x : A) → Memᴰ x (set_add xs a) ↔ (Memᴰ x xs ⊎ (x ≡ a))
  memᴰ-set_add xs a x = elim (Bool-cases (contains xs a)) [
    | inl old ↦ rw old (
      (λ m. inl m),
      (λ m. elim m [
        | inl o ↦ o
        | inr q ↦ subst (λ y. Memᴰ y xs) (sym q) (contains_sound xs a old)
      ]),
    )
    | inr new ↦ rw new (
      (λ m. elim (memᴰ_of_append xs m) [ inl o ↦ inl o | inr o ↦ inr (single o) ]),
      (λ m. elim m [
        | inl o ↦ memᴰ-append-left (a ∷ []) o
        | inr q ↦ memᴰ-append-right xs (Memᴰ.head q)
      ]),
    )
  ]
    where
      single : Memᴰ x (a ∷ []) → x ≡ a
      single (Memᴰ.head q) = q
      single (Memᴰ.tail m) = elim m [ ]

  pub memᴰ-set_from :
      (acc xs : List A) (x : A) → Memᴰ x (set_from acc xs) ↔ (Memᴰ x acc ⊎ Memᴰ x xs)
  memᴰ-set_from acc [] x = ((λ m. inl m), (λ m. elim m [ inl o ↦ o | inr o ↦ elim o [ ] ]))
  memᴰ-set_from acc (y ∷ ys) x = (
    (λ m. elim ((memᴰ-set_from (set_add acc y) ys x).0 m) [
      | inl o ↦ elim ((memᴰ-set_add acc y x).0 o) [ inl p ↦ inl p | inr q ↦ inr (Memᴰ.head q) ]
      | inr o ↦ inr (Memᴰ.tail o)
    ]),
    (λ m.
        (memᴰ-set_from (set_add acc y) ys x).1
          (elim m [ inl o ↦ inl ((memᴰ-set_add acc y x).1 (inl o)) | inr o ↦ later o ])),
  )
    where
      later : Memᴰ x (y ∷ ys) → Memᴰ x (set_add acc y) ⊎ Memᴰ x ys
      later (Memᴰ.head q) = inl ((memᴰ-set_add acc y x).1 (inr q))
      later (Memᴰ.tail o) = inr o
