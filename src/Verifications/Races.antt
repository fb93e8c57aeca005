-- ===== src/Verifications/Races.antt =====
-- Any interleaving of the statements that the requests of a deployment run against the table.
use effect_auth.Prelude.{
  ℕ, suc, subst, sym, ◌+◌, ◌≤◌, ◌≡◌, refl, inl, inr, true, false, ◌&&◌, Option, some, List, [], ◌∷◌,
  Text, text_eq, text_eq_iff, arith, ◌==◌, head?, length, Bool-cases, if◌then◌else◌,
}
use effect_auth.Runtime.{World, Verification, Result, ok}
use effect_auth.Sql.{Dialect, consume_one}
use effect_auth.Sql.Count.{
  count, count-append, count-delete_where, count-consume_one, count-consume_one_within,
}
use effect_auth.Verifications.Store
use effect_auth.Verifications.Store.{names, is_claimable, has_identifier, is_past}

-- A statement of some request. Requests overlap, so nothing is said of the order.
pub data Statement : Type 0 where
  insert : Verification → Statement
  consume : Text → Text → Statement
  delete_named : Text → Statement
  delete_past : Statement

module _ (dialect : Dialect) where
  pub perform : Statement → World → World
  perform (insert row) w = (Store.create row w).1
  perform (consume identifier value_hash) w = (Store.consume dialect identifier value_hash w).1
  perform (delete_named identifier) w = (Store.delete_by_identifier identifier w).1
  perform delete_past w = (Store.delete_expired w).1

  abbrev pub handed : Result (Option Verification) → ℕ
  handed (ok (some row)) = 1
  handed _ = 0

  module _ (identifier value_hash : Text) where
    -- 1 where the statement hands out a row of the token, and 0 otherwise.
    abbrev pub wins_once : Statement → World → ℕ
    wins_once (consume i h) w =
        if i == identifier && h == value_hash then handed (Store.consume dialect i h w).0 else 0
    wins_once _ w = 0

    abbrev pub wins : List Statement → World → ℕ
    wins [] w = 0
    wins (s ∷ rest) w = wins_once s w + wins rest (perform s w)

    abbrev pub issued_once : Statement → ℕ
    issued_once (insert row) = if names identifier value_hash row then 1 else 0
    issued_once _ = 0

    abbrev pub issued : List Statement → ℕ
    issued [] = 0
    issued (s ∷ rest) = issued_once s + issued rest

    abbrev pub held : World → ℕ
    held w = count (names identifier value_hash) w.verifications

    is_claimable-names :
        (at : ℕ) (row : Verification)
        → is_claimable identifier value_hash at row ≡ true
        → names identifier value_hash row ≡ true
    is_claimable-names at row h = ground (arith)

    -- At most one row is handed out of the rows that a claim takes.
    handed-head? : (taken : List Verification) → handed (ok (head? taken)) ≤ length taken
    handed-head? [] = omega arith
    handed-head? (row ∷ taken) = omega arith

    consume_own :
        (at : ℕ) (rows : List Verification)
        → count
              (names identifier value_hash)
              (consume_one (is_claimable identifier value_hash at) dialect rows).0
            + handed
                (ok (head? (consume_one (is_claimable identifier value_hash at) dialect rows).1))
          ≤ count (names identifier value_hash) rows
    consume_own at rows = ground (
      arith,
      handed-head? (consume_one (is_claimable identifier value_hash at) dialect rows).1,
      count-consume_one_within (names identifier value_hash) (is_claimable identifier value_hash at)
          (is_claimable-names at) dialect rows,
    )

    abbrev Fits : Text → Text → ℕ → List Verification → Type 0
    Fits i h at rows =
        count (names identifier value_hash) (consume_one (is_claimable i h at) dialect rows).0
          + (if i == identifier && h == value_hash
              then handed (ok (head? (consume_one (is_claimable i h at) dialect rows).1))
              else 0)
        ≤ count (names identifier value_hash) rows

    consume-held_own :
        (i h : Text) (at : ℕ) (rows : List Verification)
        → (i == identifier && h == value_hash) ≡ true
        → Fits i h at rows
    consume-held_own i h at rows e =
        let i_is : i ≡ identifier = (text_eq_iff i identifier).0 (ground (arith, e)) in
        let h_is : h ≡ value_hash = (text_eq_iff h value_hash).0 (ground (arith, e)) in
        rw (e, i_is, h_is) (consume_own at rows)

    consume-held_other :
        (i h : Text) (at : ℕ) (rows : List Verification)
        → (i == identifier && h == value_hash) ≡ false
        → Fits i h at rows
    consume-held_other i h at rows e = rw e (
        omega (
          arith,
          count-consume_one (names identifier value_hash) (is_claimable i h at) dialect rows,
        ))

    consume-held : (i h : Text) (at : ℕ) (rows : List Verification) → Fits i h at rows
    consume-held i h at rows = elim (Bool-cases (i == identifier && h == value_hash)) [
      | inl e ↦ consume-held_own i h at rows e
      | inr e ↦ consume-held_other i h at rows e
    ]

    abbrev Steps : Statement → World → Type 0
    Steps s w = held (perform s w) + wins_once s w ≤ held w + issued_once s

    consume_answers :
        (i h : Text) (w : World)
        → w.fault w.calls ≡ false
        → Store.consume dialect i h w
          ≡ Store.consume_row dialect i h
              (w.clock w.reads)
              (record w { calls = suc w.calls; reads = suc w.reads })
    unfolding Store.consume Store.consume_now
    consume_answers i h w e = rw e refl

    step-consume : (i h : Text) (w : World) → w.fault w.calls ≡ false → Steps (consume i h) w
    unfolding perform Store.consume_row
    step-consume i h w e =
        subst
          (λ (r : Result (Option Verification) × World).
            held r.1 + (if i == identifier && h == value_hash then handed r.0 else 0) ≤ held w + 0)
          (sym (consume_answers i h w e))
          (omega (arith, consume-held i h (w.clock w.reads) w.verifications))

    step-held : (s : Statement) (w : World) → Steps s w
    unfolding perform Store.create Store.insert_row Store.consume Store.delete_by_identifier
        Store.delete_rows Store.delete_expired
    step-held (insert row) w =
        ground (arith, count-append (names identifier value_hash) w.verifications (row ∷ []))
    step-held (consume i h) w = elim (Bool-cases (w.fault w.calls)) [
      | inl e ↦ ground (arith, e)
      | inr e ↦ step-consume i h w e
    ]
    step-held (delete_named i) w =
        ground (
          arith,
          count-delete_where (names identifier value_hash) (has_identifier i) w.verifications,
        )
    step-held delete_past w = ground (
      arith,
      count-delete_where (names identifier value_hash) (is_past (w.clock w.reads)) w.verifications,
    )

    abbrev pub after : List Statement → World → World
    after [] w = w
    after (s ∷ rest) w = after rest (perform s w)

    -- In any interleaving of the statements of any number of requests, whichever calls fail and
    -- whatever the clock says, a token is handed out at most as often as it was stored: the rows
    -- of it that are left and the claims that got one are no more than the rows that were there
    -- and the rows that were inserted.
    pub wins-issued :
        (ops : List Statement) (w : World) → held (after ops w) + wins ops w ≤ held w + issued ops
    wins-issued [] w = omega arith
    wins-issued (s ∷ rest) w = omega (arith, step-held s w, wins-issued rest (perform s w))
