-- ===== src/Sql/Count.antt =====
-- How many rows satisfy a predicate before and after a statement.
use effect_auth.Prelude.{
  ℕ, ◌+◌, ◌≤◌, ◌≡◌, Bool, true, List, [], ◌∷◌, ◌++◌, arith, filter, length, filter-append,
  length-append,
}
use effect_auth.Sql.{Dialect, pg, sqlite, mysql, delete_where, take_first, consume_one}

module _ {ℓ} {A : Type ℓ} where
  abbrev pub count : (A → Bool) → List A → ℕ
  count p rows = length (filter p rows)

  pub count-append : (p : A → Bool) (xs ys : List A) → count p (xs ++ ys) ≡ count p xs + count p ys
  count-append p xs ys = rw filter-append (length-append (filter p xs) (filter p ys))

  pub count-delete_where :
      (p q : A → Bool) (rows : List A) → count p (delete_where q rows) ≤ count p rows
  count-delete_where p q [] = omega arith
  count-delete_where p q (r ∷ rows) = ground (arith, count-delete_where p q rows)

  count-take_first : (p q : A → Bool) (rows : List A) → count p (take_first q rows).0 ≤ count p rows
  unfolding take_first
  count-take_first p q [] = omega arith
  count-take_first p q (r ∷ rows) = ground (arith, count-take_first p q rows)

  pub count-consume_one :
      (p q : A → Bool) (d : Dialect) (rows : List A)
      → count p (consume_one q d rows).0 ≤ count p rows
  unfolding consume_one
  count-consume_one p q mysql rows = count-take_first p q rows
  count-consume_one p q _ rows = count-delete_where p q rows

  module _ (p q : A → Bool) (within : (r : A) → q r ≡ true → p r ≡ true) where
    count-delete_where_within :
        (rows : List A) → count p (delete_where q rows) + count q rows ≡ count p rows
    count-delete_where_within [] = omega arith
    count-delete_where_within (r ∷ rows) = ground (arith, count-delete_where_within rows, within r)

    count-take_first_within :
        (rows : List A)
        → count p (take_first q rows).0 + length (take_first q rows).1 ≡ count p rows
    unfolding take_first
    count-take_first_within [] = omega arith
    count-take_first_within (r ∷ rows) = ground (arith, count-take_first_within rows, within r)

    -- What a claim takes is what is missing afterwards.
    pub count-consume_one_within :
        (d : Dialect) (rows : List A)
        → count p (consume_one q d rows).0 + length (consume_one q d rows).1 ≡ count p rows
    unfolding consume_one
    count-consume_one_within mysql rows = count-take_first_within rows
    count-consume_one_within pg rows = count-delete_where_within rows
    count-consume_one_within sqlite rows = count-delete_where_within rows
