-- ===== src/Accounts/Store.antt =====
-- src/sql/stores/Accounts.ts: the `accounts` table, with the unique index on the issuer and the
-- account's id, and the foreign key on the user.
use effect_auth.Prelude.{
  ℕ, Bool, ◌&&◌, ◌||◌, Option, some, List, [], ◌∷◌, ◌++◌, Text, text_eq, nat_eq, codes, ltb, ◌==◌,
  any, filter, length, head?, if◌then◌else◌,
}
use effect_auth.Runtime.{
  World, Account, Auth, ok, err, persistence, unique_violation, now, persist, ◌>>=◌,
}
use effect_auth.Sql.{update_and_read, delete_and_count}
use effect_auth.Sessions.Store.{has_user, text_leb}

abbrev pub credential_issuer : Text
credential_issuer = codes "local:credential"

abbrev pub is_account : Text → Text → Account → Bool
is_account issuer account_id row = row.issuer == issuer && row.account_id == account_id

abbrev pub clashes : Account → List Account → Bool
clashes account rows =
    any (λ row. row.id == account.id || is_account account.issuer account.account_id row) rows

unfoldable pub create : Account → Auth Account
create account = persist (codes "AccountStore.create") (λ w.
    if clashes account w.accounts
    then (err (unique_violation (codes "AccountStore.create")), w)
    else if has_user account.user_id w.users
    then (ok account, record w { accounts = w.accounts ++ account ∷ [] })
    else (err (persistence (codes "AccountStore.create")), w))

unfoldable pub find_by_issuer_account_id : Text → Text → Auth (Option Account)
find_by_issuer_account_id issuer account_id =
    persist (codes "AccountStore.findByIssuerAccountId")
      (λ w. (ok (head? (filter (is_account issuer account_id) w.accounts)), w))

abbrev pub is_owned : Text → Text → Account → Bool
is_owned id user_id row = row.id == id && row.user_id == user_id

unfoldable pub find_by_id_and_user_id : Text → Text → Auth (Option Account)
find_by_id_and_user_id id user_id =
    persist (codes "AccountStore.findByIdAndUserId")
      (λ w. (ok (head? (filter (is_owned id user_id) w.accounts)), w))

abbrev pub is_provided : Text → Text → Account → Bool
is_provided user_id provider_id row = row.user_id == user_id && row.provider_id == provider_id

unfoldable pub find_by_user_id_and_provider_id : Text → Text → Auth (Option Account)
find_by_user_id_and_provider_id user_id provider_id =
    persist (codes "AccountStore.findByUserIdAndProviderId")
      (λ w. (ok (head? (filter (is_provided user_id provider_id) w.accounts)), w))

-- `ORDER BY created_at ASC, id ASC`
abbrev pub stands_before : Account → Account → Bool
stands_before a b =
    ltb a.created_at b.created_at || (a.created_at == b.created_at && text_leb a.id b.id)

unfoldable pub insert_ordered : Account → List Account → List Account
insert_ordered a [] = a ∷ []
insert_ordered a (b ∷ rows) =
    let later = insert_ordered a rows in if stands_before a b then a ∷ b ∷ rows else b ∷ later

unfoldable pub oldest_first : List Account → List Account
oldest_first [] = []
oldest_first (a ∷ rows) = insert_ordered a (oldest_first rows)

abbrev pub is_of : Text → Account → Bool
is_of user_id row = row.user_id == user_id

abbrev pub held_by : Text → World → List Account
held_by user_id w = oldest_first (filter (is_of user_id) w.accounts)

unfoldable pub list_by_user_id : Text → Auth (List Account)
list_by_user_id user_id =
    persist (codes "AccountStore.listByUserId") (λ w. (ok (held_by user_id w), w))

unfoldable pub list_by_user_id_for_update : Text → Auth (List Account)
list_by_user_id_for_update user_id =
    persist (codes "AccountStore.listByUserIdForUpdate") (λ w. (ok (held_by user_id w), w))

abbrev pub is_credential_of : Text → Account → Bool
is_credential_of user_id row = row.user_id == user_id && row.issuer == credential_issuer

abbrev pub rehashed : Text → ℕ → Account → Account
rehashed password_hash at row = record row { password_hash = some password_hash; updated_at = at }

unfoldable pub write_hash : Text → Text → ℕ → Auth (Option Account)
write_hash user_id password_hash at = persist (codes "AccountStore.updatePasswordHash") (λ w.
    let (rows, written) =
      update_and_read (is_credential_of user_id) (rehashed password_hash at) w.accounts in
    (ok (head? written), record w { accounts = rows }))

unfoldable pub update_password_hash : Text → Text → Auth (Option Account)
update_password_hash user_id password_hash = now >>= write_hash user_id password_hash

abbrev pub delete_rows : (Account → Bool) → Auth ℕ
delete_rows p w =
    let (rows, count) = delete_and_count p w.accounts in (ok count, record w { accounts = rows })

unfoldable pub delete_by_id : Text → Text → Auth Bool
delete_by_id id user_id = persist (codes "AccountStore.deleteById") (λ w.
    let (rows, count) = delete_and_count (is_owned id user_id) w.accounts in
    (ok (ltb 0 count), record w { accounts = rows }))

unfoldable pub delete_by_user_id : Text → Auth ℕ
delete_by_user_id user_id =
    persist (codes "AccountStore.deleteByUserId") (delete_rows (is_of user_id))

unfoldable pub count_by_user_id : Text → Auth ℕ
count_by_user_id user_id =
    persist (codes "AccountStore.countByUserId")
      (λ w. (ok (length (filter (is_of user_id) w.accounts)), w))
