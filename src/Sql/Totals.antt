-- ===== src/Sql/Totals.antt =====
-- What a measure of the rows adds up to before and after a statement.
use effect_auth.Prelude.{
  ℕ, ◌+◌, ◌≤◌, ◌≡◌, refl, Bool, Bool-cases, inl, inr, true, false, List, [], ◌∷◌, ◌++◌, Option,
  none, some, head?, any, arith, filter,
}
use effect_auth.Sql.{Dialect, pg, sqlite, mysql, delete_where, take_first, consume_one}

module _ {ℓ} {A : Type ℓ} (weight : A → ℕ) where
  abbrev pub total : List A → ℕ
  total [] = 0
  total (r ∷ rows) = weight r + total rows

  pub total-append : (xs ys : List A) → total (xs ++ ys) ≡ total xs + total ys
  total-append [] ys = omega arith
  total-append (x ∷ xs) ys = omega (arith, total-append xs ys)

  module _ (p : A → Bool) where
    total-delete_where :
        (rows : List A) → total (delete_where p rows) + total (filter p rows) ≡ total rows
    total-delete_where [] = omega arith
    total-delete_where (r ∷ rows) = ground (arith, total-delete_where rows)

    pub total-delete_where_le : (rows : List A) → total (delete_where p rows) ≤ total rows
    total-delete_where_le rows = omega (arith, total-delete_where rows)

    total-take_first :
        (rows : List A) → total (take_first p rows).0 + total (take_first p rows).1 ≡ total rows
    unfolding take_first
    total-take_first [] = omega arith
    total-take_first (r ∷ rows) = ground (arith, total-take_first rows)

    -- A claim leaves what it does not take.
    pub total-consume_one :
        (d : Dialect) (rows : List A)
        → total (consume_one p d rows).0 + total (consume_one p d rows).1 ≡ total rows
    unfolding consume_one
    total-consume_one mysql rows = total-take_first rows
    total-consume_one pg rows = total-delete_where rows
    total-consume_one sqlite rows = total-delete_where rows

  abbrev pub weight_of : Option A → ℕ
  weight_of none = 0
  weight_of (some r) = weight r

  pub weight_of-head? : (taken : List A) → weight_of (head? taken) ≤ total taken
  weight_of-head? [] = omega arith
  weight_of-head? (r ∷ taken) = omega arith

module _ {ℓ} {A : Type ℓ} (p : A → Bool) where
  head?-filter : (rows : List A) (r : A) → head? (filter p rows) ≡ some r → p r ≡ true
  head?-filter [] r h = cc
  head?-filter (s ∷ rows) r h = elim (Bool-cases (p s)) [
    | inl e ↦ ground (arith, e, h)
    | inr e ↦ head?-filter rows r (rw e at h)
  ]

  head?-take_first : (rows : List A) (r : A) → head? (take_first p rows).1 ≡ some r → p r ≡ true
  unfolding take_first
  head?-take_first [] r h = cc
  head?-take_first (s ∷ rows) r h = elim (Bool-cases (p s)) [
    | inl e ↦ ground (arith, e, h)
    | inr e ↦ head?-take_first rows r (rw e at h)
  ]

  -- A claim hands out a row that its statement names.
  pub head?-consume_one :
      (d : Dialect) (rows : List A) (r : A) → head? (consume_one p d rows).1 ≡ some r → p r ≡ true
  unfolding consume_one
  head?-consume_one mysql rows = head?-take_first rows
  head?-consume_one pg rows = head?-filter rows
  head?-consume_one sqlite rows = head?-filter rows

  take_first-last :
      (rows : List A) (r : A)
      → any p rows ≡ false
      → p r ≡ true
      → (take_first p (rows ++ r ∷ [])).1 ≡ r ∷ []
  unfolding take_first
  take_first-last [] r none_before h = rw h refl
  take_first-last (s ∷ rows) r none_before h =
      ground (arith, take_first-last rows r, none_before, h)

  filter-last :
      (rows : List A) (r : A) → any p rows ≡ false → p r ≡ true → filter p (rows ++ r ∷ []) ≡ r ∷ []
  filter-last [] r none_before h = rw h refl
  filter-last (s ∷ rows) r none_before h = ground (arith, filter-last rows r, none_before, h)

  -- A claim finds a row that was just inserted.
  pub consume_one-last :
      (d : Dialect) (rows : List A) (r : A)
      → any p rows ≡ false
      → p r ≡ true
      → head? (consume_one p d (rows ++ r ∷ [])).1 ≡ some r
  unfolding consume_one
  consume_one-last mysql rows r none_before h = rw (take_first-last rows r none_before h) refl
  consume_one-last pg rows r none_before h = rw (filter-last rows r none_before h) refl
  consume_one-last sqlite rows r none_before h = rw (filter-last rows r none_before h) refl
