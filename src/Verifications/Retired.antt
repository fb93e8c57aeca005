-- ===== src/Verifications/Retired.antt =====
-- What is left of a user's tokens where they have been retired.
use effect_auth.Prelude.{
  ℕ, ◌≡◌, ap, sym, subst, ◌∙◌, inl, inr, Bool, false, not, List, [], ◌∷◌, Memᴰ, Text, arith,
  memᴰ_of_filter, Bool-cases,
}
use effect_auth.Runtime.{World, Verification, ok, err-ne-ok}
use effect_auth.Runtime.Steps.{bind-ok, world_of}
use effect_auth.Sql.{delete_where}
use effect_auth.Verifications.{
  identifier_of, retire, retire_each, user_subject_purposes, retire_user_subject_tokens,
}
use effect_auth.Verifications.Store
use effect_auth.Verifications.Store.{has_identifier}

-- No row is new, none of the names has one, and the credentials are as they were.
pub record Retired (names : List Text) (user_id : Text) (w after : World) : Type 0 where
  pub kept : (row : Verification) → Memᴰ row after.verifications → Memᴰ row w.verifications
  pub gone :
      (name : Text) (row : Verification)
      → Memᴰ name names
      → Memᴰ row after.verifications
      → has_identifier (identifier_of name user_id) row ≡ false
  pub accounts : after.accounts ≡ w.accounts

retire-ok :
    (name user_id : Text) (w after : World) (n : ℕ)
    → retire name user_id w ≡ (ok n, after)
    → (after.verifications
        ≡ delete_where (has_identifier (identifier_of name user_id)) w.verifications)
      × (after.accounts ≡ w.accounts)
unfolding retire Store.delete_by_identifier Store.delete_rows
retire-ok name user_id w after n h = elim (Bool-cases (w.fault w.calls)) [
  | inl e ↦ absurd (err-ne-ok (rw e at h))
  | inr e ↦
      let ended = world_of _ (ok n) _ after (rw e at h) in
      (ap (λ (x : World). x.verifications) (sym ended), ap (λ (x : World). x.accounts) (sym ended))
]

memᴰ_of_delete_where :
    (p : Verification → Bool) (rows : List Verification) (row : Verification)
    → Memᴰ row (delete_where p rows)
    → Memᴰ row rows × (p row ≡ false)
memᴰ_of_delete_where p rows row m =
    let (there, apart) = memᴰ_of_filter (λ r. not (p r)) rows row m in (there, ground arith)

pub retire_each-Retired :
    (names : List Text) (user_id : Text) (w after : World)
    → retire_each names user_id w ≡ (ok tt, after)
    → Retired names user_id w after
unfolding retire_each
retire_each-Retired [] user_id w after h =
    let ended = world_of (ok tt) (ok tt) w after h in
    record {
      kept = λ row m. subst (λ (x : World). Memᴰ row x.verifications) (sym ended) m;
      gone = λ name row m _. elim m [ ];
      accounts = ap (λ (x : World). x.accounts) (sym ended);
    }
retire_each-Retired (name ∷ names) user_id w after h =
    let one = bind-ok (retire name user_id) (λ _. retire_each names user_id) w tt after h in
    let (left, same) = retire-ok name user_id w one.between one.value one.first in
    let rest = retire_each-Retired names user_id one.between after one.rest in
    let out = λ (row : Verification) (m : Memᴰ row after.verifications).
      memᴰ_of_delete_where (has_identifier (identifier_of name user_id)) w.verifications row
        (subst (λ l. Memᴰ row l) left (rest.kept row m)) in
    record {
      kept = λ row m. (out row m).0;
      gone = λ other row named m. elim named [
        | Memᴰ.head e ↦ rw e (out row m).1
        | Memᴰ.tail t ↦ rest.gone other row t m
      ];
      accounts = rest.accounts ∙ same;
    }

pub retire_user_subject_tokens-Retired :
    (user_id : Text) (w after : World)
    → retire_user_subject_tokens user_id w ≡ (ok tt, after)
    → Retired user_subject_purposes user_id w after
unfolding retire_user_subject_tokens
retire_user_subject_tokens-Retired user_id w after h =
    retire_each-Retired user_subject_purposes user_id w after h
