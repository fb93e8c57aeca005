-- ===== src/Passwords/Stored.antt =====
-- The hash that a user's credential account holds, through the statements that write it.
use effect_auth.Prelude.{
  ℕ, ◌≡◌, refl, ap, sym, subst, ◌∙◌, inl, inr, true, false, Option, some, List, [], ◌∷◌, ◌++◌, Text,
  text_eq, text_eq_iff, arith, ◌==◌, Bool-cases, All, head?, filter, map,
}
use effect_auth.Runtime.{World, Account, ok, err-ne-ok}
use effect_auth.Runtime.Steps.{ok_injective, world_of}
use effect_auth.Sql.{update_where}
use effect_auth.Sessions.Store.{has_user}
use effect_auth.Accounts
use effect_auth.Accounts.Store.{
  credential_issuer, is_account, is_credential_of, rehashed, write_hash, update_password_hash,
  clashes,
}
use effect_auth.Passwords.{hash_of, create_credential_account}

abbrev pub stored_in : Text → List Account → Option Text
stored_in user_id rows = hash_of (head? (filter (is_account credential_issuer user_id) rows))

-- The hash that a user would sign in with.
abbrev pub stored_hash : Text → World → Option Text
stored_hash user_id w = stored_in user_id w.accounts

-- A credential account stands under its user's id.
abbrev pub IsKeyed : Account → Type 0
IsKeyed row = row.issuer ≡ credential_issuer → row.account_id ≡ row.user_id

same_row :
    (user_id : Text) (row : Account)
    → IsKeyed row
    → is_credential_of user_id row ≡ is_account credential_issuer user_id row
same_row user_id row keyed = elim (Bool-cases (row.issuer == credential_issuer)) [
  | inl e ↦ rw (e, keyed ((text_eq_iff row.issuer credential_issuer).0 e)) (ground arith)
  | inr e ↦ rw e (ground arith)
]

stored-update_where :
    (user_id hash : Text) (at : ℕ) (rows : List Account) (found : Account)
    → All IsKeyed rows
    → head? (filter (is_credential_of user_id) rows) ≡ some found
    → stored_in user_id (update_where (is_credential_of user_id) (rehashed hash at) rows)
      ≡ some hash
stored-update_where user_id hash at [] found keyed h = absurd (cc)
stored-update_where user_id hash at (row ∷ rows) found keyed h =
    elim (Bool-cases (is_credential_of user_id row)) [
      | inl e ↦ rw (e, sym (same_row user_id row keyed.0) ∙ e) refl
      | inr e ↦
          rw (e, sym (same_row user_id row keyed.0) ∙ e)
            (stored-update_where user_id hash at rows found keyed.1 (rw e at h))
    ]

stored-snoc :
    (row : Account) (rows : List Account)
    → row.issuer ≡ credential_issuer
    → clashes row rows ≡ false
    → stored_in row.account_id (rows ++ row ∷ []) ≡ row.password_hash
stored-snoc row [] same h =
    rw
      (
        same,
        (text_eq_iff credential_issuer credential_issuer).1 refl,
        (text_eq_iff row.account_id row.account_id).1 refl,
      )
      refl
stored-snoc row (r ∷ rows) same h =
    elim (Bool-cases (is_account credential_issuer row.account_id r)) [
      | inl e ↦
          let taken = subst (λ i. is_account i row.account_id r ≡ true) (sym same) e in
          absurd (ground arith)
      | inr e ↦ rw e (stored-snoc row rows same (ground arith))
    ]

head_of_map :
    (f : Account → Account) (rows : List Account) (found : Account)
    → head? (map f rows) ≡ some found
    → (row : Account) × (head? rows ≡ some row)
head_of_map f [] found h = absurd (cc)
head_of_map f (row ∷ rows) found h = (row, refl)

-- An update that wrote a row leaves its hash with the user.
pub update_password_hash-stored :
    (user_id hash : Text) (w after : World) (found : Account)
    → All IsKeyed w.accounts
    → update_password_hash user_id hash w ≡ (ok (some found), after)
    → stored_hash user_id after ≡ some hash
unfolding update_password_hash write_hash
update_password_hash-stored user_id hash w after found keyed h =
    elim (Bool-cases (w.fault w.calls)) [
      | inl e ↦ absurd (err-ne-ok (rw e at h))
      | inr e ↦
          let (row, is_row) =
            head_of_map (rehashed hash (w.clock w.reads))
              (filter (is_credential_of user_id) w.accounts) found
              (ok_injective _ (some found) _ after (rw e at h)) in
          ap (λ (v : World). stored_hash user_id v)
            (sym (world_of _ (ok (some found)) _ after (rw e at h)))
          ∙ stored-update_where user_id hash (w.clock w.reads) w.accounts row keyed is_row
    ]

create-stored :
    (row made : Account) (w after : World)
    → row.issuer ≡ credential_issuer
    → Accounts.Store.create row w ≡ (ok made, after)
    → stored_hash row.account_id after ≡ row.password_hash
unfolding Accounts.Store.create
create-stored row made w after same h = elim (Bool-cases (w.fault w.calls)) [
  | inl e ↦ absurd (err-ne-ok (rw e at h))
  | inr e ↦ elim (Bool-cases (clashes row w.accounts)) [
    | inl taken ↦ absurd (err-ne-ok (rw (e, taken) at h))
    | inr free ↦ elim (Bool-cases (has_user row.user_id w.users)) [
      | inl there ↦
          ap (λ (v : World). stored_hash row.account_id v)
            (sym (world_of _ (ok made) _ after (rw (e, free, there) at h)))
          ∙ stored-snoc row w.accounts same free
      | inr gone ↦ absurd (err-ne-ok (rw (e, free, gone) at h))
    ]
  ]
]

pub create_credential_account-stored :
    (user_id hash : Text) (made : Account) (w after : World)
    → create_credential_account user_id hash w ≡ (ok made, after)
    → stored_hash user_id after ≡ some hash
unfolding create_credential_account
create_credential_account-stored user_id hash made w after h = create-stored _ made _ after refl h
