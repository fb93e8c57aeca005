-- ===== src/Accounts/Inserted.antt =====
-- What the insertion of an account for a provider's identity makes.
use effect_auth.Prelude.{◌≡◌, ap, sym, inl, inr, Text, text_eq, Bool-cases}
use effect_auth.Runtime.{World, Account, ok, err-ne-ok, ◌>>◌}
use effect_auth.Runtime.Steps.{bind-ok, ok_injective}
use effect_auth.Sessions.Store.{has_user}
use effect_auth.Users
use effect_auth.Users.{normalize_email, find_email}
use effect_auth.Users.Transactions.{called, transaction-ok}
use effect_auth.Accounts.Store
use effect_auth.Accounts.Store.{is_account, clashes}
use effect_auth.Accounts.{OAuthIdentity, insert_account, link_existing}

-- The account stands for the identity, at the user.
pub record StandsFor (identity : OAuthIdentity) (user_id : Text) (account : Account) : Type 0 where
  pub user : account.user_id ≡ user_id
  pub issuer : account.issuer ≡ identity.issuer
  pub subject : account.account_id ≡ identity.account_id

create-ok :
    (row made : Account) (w after : World) → Store.create row w ≡ (ok made, after) → made ≡ row
unfolding Store.create
create-ok row made w after h = elim (Bool-cases (w.fault w.calls)) [
  | inl e ↦ absurd (err-ne-ok (rw e at h))
  | inr e ↦ elim (Bool-cases (clashes row w.accounts)) [
    | inl taken ↦ absurd (err-ne-ok (rw (e, taken) at h))
    | inr free ↦ elim (Bool-cases (has_user row.user_id w.users)) [
      | inl there ↦ sym (ok_injective row made _ after (rw (e, free, there) at h))
      | inr gone ↦ absurd (err-ne-ok (rw (e, free, gone) at h))
    ]
  ]
]

pub insert_account-StandsFor :
    (user_id : Text) (identity : OAuthIdentity) (w after : World) (account : Account)
    → insert_account user_id identity w ≡ (ok account, after)
    → StandsFor identity user_id account
unfolding insert_account
insert_account-StandsFor user_id identity w after account h =
    let is = create-ok _ account _ after h in
    record {
      user = ap (λ (a : Account). a.user_id) is;
      issuer = ap (λ (a : Account). a.issuer) is;
      subject = ap (λ (a : Account). a.account_id) is;
    }

pub link_existing-StandsFor :
    (user_id : Text) (identity : OAuthIdentity) (w after : World) (account : Account)
    → link_existing user_id identity w ≡ (ok account, after)
    → StandsFor identity user_id account
unfolding link_existing
link_existing-StandsFor user_id identity w after account h =
    let (v, ran, _) =
      transaction-ok (Users.lock_user_row user_id >> insert_account user_id identity) w after
        account h in
    let one =
      bind-ok (Users.lock_user_row user_id) (λ _. insert_account user_id identity) (called w)
        account v ran in
    insert_account-StandsFor user_id identity one.between v account one.rest
