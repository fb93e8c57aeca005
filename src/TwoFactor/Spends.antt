-- ===== src/TwoFactor/Spends.antt =====
-- How often a recovery code is spent, in any interleaving of the statements of any number of
-- requests.
use effect_auth.Prelude.{
  ℕ, suc, ◌+◌, ◌≤◌, ◌≡◌, refl, inl, inr, Bool, true, false, not, ◌&&◌, ◌||◌, some, List, [], ◌∷◌,
  ◌++◌, Text, text_eq, text_eq_iff, arith, ◌==◌, length, map, filter, ltb, Bool-cases, Option-cases,
  if◌then◌else◌,
}
use effect_auth.Runtime.{World, User, Result, RecoveryCode, ok}
use effect_auth.Runtime.Steps.{some_injective, persist-cases}
use effect_auth.Sql.{update_where, delete_where}
use effect_auth.Sql.Count.{count, count-append, count-delete_where}
use effect_auth.Sessions.Store.{has_user}
use effect_auth.TwoFactor.Store
use effect_auth.TwoFactor.Store.{
  is_code_of, is_held, is_spendable, is_unspent, spent_at, unspent, insert_codes, code_clashes,
}

-- A replacement clears the rows whose ids it has read, here any ids: they may have been read at any
-- earlier moment, so that two replacements may each leave their codes.
pub data CodeStatement : Type 0 where
  replace : List Text → List RecoveryCode → CodeStatement
  spend : Text → Text → ℕ → CodeStatement
  forget : Text → CodeStatement

unfoldable pub perform : CodeStatement → World → World
perform (replace held given) w = (Store.replace_held held given w).1
perform (spend user code_hash at) w = (Store.consume_recovery_code user code_hash at w).1
perform (forget user) w = (Store.delete_recovery_codes user w).1

count-update_le :
    (p q : RecoveryCode → Bool) (f : RecoveryCode → RecoveryCode) (rows : List RecoveryCode)
    → ((r : RecoveryCode) → p (f r) ≡ false)
    → count p (update_where q f rows) ≤ count p rows
count-update_le p q f [] h = omega arith
count-update_le p q f (r ∷ rows) h = ground (arith, count-update_le p q f rows h, h r)

count-update_self :
    (p : RecoveryCode → Bool) (f : RecoveryCode → RecoveryCode) (rows : List RecoveryCode)
    → ((r : RecoveryCode) → p (f r) ≡ false)
    → count p (update_where p f rows) ≡ 0
count-update_self p f [] h = refl
count-update_self p f (r ∷ rows) h = ground (arith, count-update_self p f rows h, h r)

length-map :
    (f : RecoveryCode → RecoveryCode) (rows : List RecoveryCode) → length (map f rows) ≡ length rows
length-map f [] = refl
length-map f (r ∷ rows) = omega (arith, length-map f rows)

module _ (user code_hash : Text) where
  abbrev pub is_named : RecoveryCode → Bool
  is_named code = code.user_id == user && code.code_hash == code_hash

  -- The unspent rows of the code.
  abbrev pub unspent_rows : World → ℕ
  unspent_rows w = count (is_spendable user code_hash) w.recovery_codes

  abbrev pub if_spent : Result Bool → ℕ
  if_spent (ok true) = 1
  if_spent _ = 0

  -- 1 where the statement spends the code, and 0 otherwise.
  abbrev pub spends_once : CodeStatement → World → ℕ
  spends_once (spend u h at) w =
      if u == user && h == code_hash then if_spent (Store.consume_recovery_code u h at w).0 else 0
  spends_once _ w = 0

  abbrev pub spends : List CodeStatement → World → ℕ
  spends [] w = 0
  spends (s ∷ rest) w = spends_once s w + spends rest (perform s w)

  abbrev pub stored_once : CodeStatement → ℕ
  stored_once (replace held given) = count is_named given
  stored_once _ = 0

  abbrev pub stored : List CodeStatement → ℕ
  stored [] = 0
  stored (s ∷ rest) = stored_once s + stored rest

  abbrev pub after : List CodeStatement → World → World
  after [] w = w
  after (s ∷ rest) w = after rest (perform s w)

  spent-false : (at : ℕ) (r : RecoveryCode) → is_spendable user code_hash (spent_at at r) ≡ false
  spent-false at r = ground arith

  count-inserted :
      (given : List RecoveryCode) (users : List User) (rows rows' : List RecoveryCode)
      → insert_codes given users rows ≡ some rows'
      → count (is_spendable user code_hash) rows'
        ≤ count (is_spendable user code_hash) rows + count is_named given
  unfolding insert_codes
  count-inserted [] users rows rows' h = rw (some_injective h) (omega arith)
  count-inserted (code ∷ given) users rows rows' h =
      elim (Bool-cases (code_clashes code rows || not (has_user code.user_id users))) [
        | inl e ↦ absurd (let q = (rw e at h) in cc)
        | inr e ↦ omega (
          arith,
          count-inserted given users (rows ++ unspent code ∷ []) rows' (rw e at h),
          count-append (is_spendable user code_hash) rows (unspent code ∷ []),
          counted code given,
        )
      ]
    where
      counted :
          (code : RecoveryCode) (given : List RecoveryCode)
          → count (is_spendable user code_hash) (unspent code ∷ []) + count is_named given
            ≡ count is_named (code ∷ given)
      counted code given = ground arith

  spend-own :
      (at : ℕ) (rows : List RecoveryCode)
      → count
            (is_spendable user code_hash)
            (update_where (is_spendable user code_hash) (spent_at at) rows)
          + if_spent
              (ok (ltb 0 (length (map (spent_at at) (filter (is_spendable user code_hash) rows)))))
        ≤ count (is_spendable user code_hash) rows
  spend-own at rows = ground (
    arith,
    count-update_self (is_spendable user code_hash) (spent_at at) rows (spent-false at),
    length-map (spent_at at) (filter (is_spendable user code_hash) rows),
  )

  spend-any :
      (u h : Text) (at : ℕ) (rows : List RecoveryCode)
      → count (is_spendable user code_hash) (update_where (is_spendable u h) (spent_at at) rows)
          + (if u == user && h == code_hash
              then if_spent
                  (ok (ltb 0 (length (map (spent_at at) (filter (is_spendable u h) rows)))))
              else 0)
        ≤ count (is_spendable user code_hash) rows
  spend-any u h at rows = elim (Bool-cases (u == user && h == code_hash)) [
    | inl e ↦
        let u_is : u ≡ user = (text_eq_iff u user).0 (ground (arith, e)) in
        let h_is : h ≡ code_hash = (text_eq_iff h code_hash).0 (ground (arith, e)) in
        rw (e, u_is, h_is) (spend-own at rows)
    | inr e ↦ rw e (
        omega (
          arith,
          count-update_le (is_spendable user code_hash) (is_spendable u h) (spent_at at) rows
              (spent-false at),
        ))
  ]

  commit-stored :
      (given : List RecoveryCode) (kept : List RecoveryCode) (w : World)
      → count (is_spendable user code_hash) kept ≤ unspent_rows w
      → unspent_rows (Store.commit_codes (insert_codes given w.users kept) w).1
        ≤ unspent_rows w + count is_named given
  commit-stored given kept w le = elim (Option-cases (insert_codes given w.users kept)) [
    | inl e ↦ rw e (omega arith)
    | inr (rows, e) ↦ rw e (omega (arith, count-inserted given w.users kept rows e))
  ]

  abbrev Step : CodeStatement → World → Type 0
  Step s w = unspent_rows (perform s w) + spends_once s w ≤ unspent_rows w + stored_once s

  Step-spends : (s : CodeStatement) (w : World) → Step s w
  unfolding perform Store.replace_held Store.consume_recovery_code Store.delete_recovery_codes
  Step-spends (replace held given) w =
      persist-cases (λ r. unspent_rows r.1 + 0 ≤ unspent_rows w + count is_named given) _
        (λ v.
          Store.commit_codes
            (insert_codes given v.users (delete_where (is_held held) v.recovery_codes)) v)
        w (omega arith)
        (omega (
          arith,
          commit-stored given (delete_where (is_held held) w.recovery_codes)
              (record w { calls = suc w.calls })
              (count-delete_where (is_spendable user code_hash) (is_held held) w.recovery_codes),
        ))
  Step-spends (spend u h at) w =
      persist-cases
        (λ r.
          unspent_rows r.1 + (if u == user && h == code_hash then if_spent r.0 else 0)
          ≤ unspent_rows w + 0)
        _
        (λ v. (
          ok (ltb 0 (length (map (spent_at at) (filter (is_spendable u h) v.recovery_codes)))),
          record v {
            recovery_codes = update_where (is_spendable u h) (spent_at at) v.recovery_codes;
          },
        ))
        w (ground arith) (omega (arith, spend-any u h at w.recovery_codes))
  Step-spends (forget u) w =
      ground
        (arith, count-delete_where (is_spendable user code_hash) (is_code_of u) w.recovery_codes)

  -- In any interleaving of the statements of any number of requests, whichever calls fail: the
  -- times that a recovery code was spent and its rows that are still unspent are together no more
  -- than its unspent rows before and the times that it was stored since.
  pub spends-stored :
      (ops : List CodeStatement) (w : World)
      → unspent_rows (after ops w) + spends ops w ≤ unspent_rows w + stored ops
  spends-stored [] w = omega arith
  spends-stored (s ∷ rest) w = omega (arith, Step-spends s w, spends-stored rest (perform s w))
