-- ===== src/Passwords/Enrolled.antt =====
-- What the transaction of a registration by password writes, for a deployment without hooks on
-- users.
use effect_auth.Prelude.{
  ℕ, ◌≡◌, refl, ap, sym, ◌∙◌, inl, inr, false, none, some, List, [], ◌∷◌, ◌++◌, Text, text_eq,
  text_eq_iff, arith, ◌==◌, Bool-cases,
}
use effect_auth.Runtime.{World, User, Account, Result, Error, ok, err, err-ne-ok, pure}
use effect_auth.Runtime.Steps.{bind-ok, ok_injective, world_of}
use effect_auth.Sessions.Store.{has_user}
use effect_auth.Users
use effect_auth.Users.{normalize_email, find_email, transaction}
use effect_auth.Accounts
use effect_auth.Accounts.{UserHooks, provision}
use effect_auth.Accounts.Store.{clashes}
use effect_auth.Passwords.{create_credential_account, unless_unique}
use effect_auth.Passwords.Stored.{stored_hash}

abbrev pub no_hooks : UserHooks
no_hooks = record {
  before_user_create = none;
  after_user_create = none;
  before_account_link = none;
}

find_email-snoc :
    (user : User) (rows : List User)
    → Users.clashes user rows ≡ false
    → find_email user.email (rows ++ user ∷ []) ≡ some user
unfolding find_email
find_email-snoc user [] h = rw ((text_eq_iff user.email user.email).1 refl) refl
find_email-snoc user (row ∷ rows) h = elim (Bool-cases (row.email == user.email)) [
  | inl e ↦ absurd (ground arith)
  | inr e ↦ rw e (find_email-snoc user rows (ground arith))
]

pub create-found :
    (row made : User) (w after : World)
    → Users.create row w ≡ (ok made, after)
    → (made ≡ row) × (find_email row.email after.users ≡ some row)
unfolding Users.create
create-found row made w after h = elim (Bool-cases (w.fault w.calls)) [
  | inl e ↦ absurd (err-ne-ok (rw e at h))
  | inr e ↦ elim (Bool-cases (Users.clashes row w.users)) [
    | inl taken ↦ absurd (err-ne-ok (rw (e, taken) at h))
    | inr free ↦ (
      sym (ok_injective row made _ after (rw (e, free) at h)),
      ap (λ (v : World). find_email row.email v.users)
            (sym (world_of _ (ok made) _ after (rw (e, free) at h)))
          ∙ find_email-snoc row w.users free,
    )
  ]
]

create-users :
    (row made : Account) (w after : World)
    → Accounts.Store.create row w ≡ (ok made, after)
    → after.users ≡ w.users
unfolding Accounts.Store.create
create-users row made w after h = elim (Bool-cases (w.fault w.calls)) [
  | inl e ↦ absurd (err-ne-ok (rw e at h))
  | inr e ↦ elim (Bool-cases (clashes row w.accounts)) [
    | inl taken ↦ absurd (err-ne-ok (rw (e, taken) at h))
    | inr free ↦ elim (Bool-cases (has_user row.user_id w.users)) [
      | inl there ↦
          ap (λ (v : World). v.users)
            (sym (world_of _ (ok made) _ after (rw (e, free, there) at h)))
      | inr gone ↦ absurd (err-ne-ok (rw (e, free, gone) at h))
    ]
  ]
]

pub create_credential_account-users :
    (user_id hash : Text) (made : Account) (w after : World)
    → create_credential_account user_id hash w ≡ (ok made, after)
    → after.users ≡ w.users
unfolding create_credential_account
create_credential_account-users user_id hash made w after h = create-users _ made _ after h

pub unless_unique-ok :
    {A : Type 0} (e : Error) (r : Result A × World) (a : A) (after : World)
    → unless_unique e r ≡ (ok a, after)
    → r ≡ (ok a, after)
unless_unique-ok e (ok b, v) a after h = h
unless_unique-ok e (err f, v) a after h = absurd (err-ne-ok h)

pub provision-ok :
    (lower_other : ℕ → Text) (row user : User) (w after : World)
    → provision lower_other no_hooks row w ≡ (ok user, after)
    → Users.create row w ≡ (ok user, after)
unfolding provision
provision-ok lower_other row user w after h =
    let one = bind-ok (Users.create row) (λ made. pure made) w user after h in one.first ∙ one.rest

-- The user has the address, and the hash.
pub record IsEnrolled (email hash : Text) (user : User) (after : World) : Type 0 where
  pub found : find_email email after.users ≡ some user
  pub stored : stored_hash user.id after ≡ some hash
