-- ===== src/Sql/Consumed.antt =====
-- The row that a statement which consumes takes, and the rows that it leaves, whatever the dialect.
use effect_auth.Prelude.{
  ℕ, ◌≤◌, ◌<◌, ◌≡◌, refl, inl, inr, Bool, true, not, List, [], ◌∷◌, Memᴰ, some, arith, length,
  filter, head?, Bool-cases, memᴰ_of_filter, if◌then◌else◌,
}
use effect_auth.Sql.{Dialect, pg, sqlite, mysql, delete_where, take_first, consume_one}
use effect_auth.Sql.Totals.{total, total-consume_one, weight_of, weight_of-head?, head?-consume_one}

memᴰ_of_head? {ℓ} : {A : Type ℓ} (l : List A) (r : A) → head? l ≡ some r → Memᴰ r l
memᴰ_of_head? [] r h = absurd (cc)
memᴰ_of_head? (x ∷ l) r h = Memᴰ.head (cc)

module _ {ℓ} {A : Type ℓ} (p q : A → Bool) where
  memᴰ_of_take_first : (rows : List A) (r : A) → Memᴰ r (take_first p rows).1 → Memᴰ r rows
  unfolding take_first
  memᴰ_of_take_first [] r m = m
  memᴰ_of_take_first (x ∷ rows) r m = elim (Bool-cases (p x)) [
    | inl e ↦ only (rw e at m)
    | inr e ↦ Memᴰ.tail (memᴰ_of_take_first rows r (rw e at m))
  ]
    where
      only : Memᴰ r (x ∷ []) → Memᴰ r (x ∷ rows)
      only (Memᴰ.head e) = Memᴰ.head e
      only (Memᴰ.tail t) = elim t [ ]

  memᴰ_of_taken :
      (d : Dialect) (rows : List A) (r : A) → Memᴰ r (consume_one p d rows).1 → Memᴰ r rows
  unfolding consume_one
  memᴰ_of_taken mysql rows r m = memᴰ_of_take_first rows r m
  memᴰ_of_taken pg rows r m = (memᴰ_of_filter p rows r m).0
  memᴰ_of_taken sqlite rows r m = (memᴰ_of_filter p rows r m).0

  -- The row that is handed out stood in the table.
  pub taken-memᴰ :
      (d : Dialect) (rows : List A) (r : A) → head? (consume_one p d rows).1 ≡ some r → Memᴰ r rows
  taken-memᴰ d rows r h = memᴰ_of_taken d rows r (memᴰ_of_head? (consume_one p d rows).1 r h)

  abbrev one_if : A → ℕ
  one_if r = if q r then 1 else 0

  length-filter-total : (rows : List A) → length (filter q rows) ≡ total one_if rows
  length-filter-total [] = refl
  length-filter-total (r ∷ rows) = ground (arith, length-filter-total rows)

  module _ (wider : (r : A) → p r ≡ true → q r ≡ true) where
    -- Of the rows in a wider class than the statement's, fewer are left.
    pub fewer_left :
        (d : Dialect) (rows : List A) (r : A)
        → head? (consume_one p d rows).1 ≡ some r
        → length (filter q (consume_one p d rows).0) < length (filter q rows)
    fewer_left d rows r h =
        let weighed = weight_of-head? one_if (consume_one p d rows).1 in
        omega (
          arith,
          length-filter-total (consume_one p d rows).0,
          length-filter-total rows,
          total-consume_one one_if p d rows,
          one_at_least weighed,
        )
      where
        one_at_least :
            weight_of one_if (head? (consume_one p d rows).1)
              ≤ total one_if (consume_one p d rows).1
            → 1 ≤ total one_if (consume_one p d rows).1
        one_at_least w = rw (h, wider r (head?-consume_one p d rows r h)) at w

    filter-take_first :
        (rows : List A)
        → filter (λ r. not (q r)) (take_first p rows).0 ≡ filter (λ r. not (q r)) rows
    unfolding take_first
    filter-take_first [] = refl
    filter-take_first (r ∷ rows) = elim (Bool-cases (p r)) [
      | inl e ↦ rw (e, wider r e) refl
      | inr e ↦ ground (arith, e, filter-take_first rows)
    ]

    filter-delete_where :
        (rows : List A)
        → filter (λ r. not (q r)) (delete_where p rows) ≡ filter (λ r. not (q r)) rows
    filter-delete_where [] = refl
    filter-delete_where (r ∷ rows) = elim (Bool-cases (p r)) [
      | inl e ↦ rw (e, wider r e) (filter-delete_where rows)
      | inr e ↦ ground (arith, e, filter-delete_where rows)
    ]

    -- The rows outside of it stay.
    pub others_stay :
        (d : Dialect) (rows : List A)
        → filter (λ r. not (q r)) (consume_one p d rows).0 ≡ filter (λ r. not (q r)) rows
    unfolding consume_one
    others_stay mysql rows = filter-take_first rows
    others_stay pg rows = filter-delete_where rows
    others_stay sqlite rows = filter-delete_where rows
