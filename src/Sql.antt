-- ===== src/Sql.antt =====
-- src/sql/Mutations.ts: one table of rows and the statements that change it. The transactions that
-- MySQL needs in place of `RETURNING` are single atomic steps here.

pub mod Rows
pub mod Count
pub mod Totals
pub mod Consumed
use effect_auth.Prelude.{
  ℕ, Bool, not, Option, none, some, List, [], ◌∷◌, map, length, filter, if◌then◌else◌,
}

-- `SqlDialect` of src/sql/Dialect.ts
pub data Dialect : Type 0 where
  pg sqlite mysql : Dialect

module _ {ℓ} {A : Type ℓ} (p : A → Bool) where
  abbrev pub update_where : (A → A) → List A → List A
  update_where f rows = map (λ r. if p r then f r else r) rows

  -- UPDATE ... WHERE ... RETURNING: the table after it, and the rows it wrote.
  abbrev pub update_and_read : (A → A) → List A → List A × List A
  update_and_read f rows = (update_where f rows, map f (filter p rows))

  abbrev pub delete_where : List A → List A
  delete_where rows = filter (λ r. not (p r)) rows

  -- DELETE ... WHERE, counted.
  abbrev pub delete_and_count : List A → List A × ℕ
  delete_and_count rows = (delete_where rows, length (filter p rows))

  -- The first row that satisfies the predicate, taken out of the table.
  unfoldable pub take_first : List A → List A × List A
  take_first [] = ([], [])
  take_first (r ∷ rows) =
      let later = take_first rows in if p r then (rows, r ∷ []) else (r ∷ later.0, later.1)

  -- DELETE ... WHERE ... RETURNING, which takes every row that satisfies the predicate; MySQL
  -- selects one candidate (`LIMIT 1`) and deletes that row by its key.
  unfoldable pub consume_one : Dialect → List A → List A × List A
  unfolding take_first
  consume_one mysql rows = take_first rows
  consume_one _ rows = (delete_where rows, filter p rows)
