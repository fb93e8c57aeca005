-- ===== src/Users.antt =====
-- src/sql/stores/Users.ts: the `users` table, with the unique index on the address; the
-- transaction of src/sql/stores/Transaction.ts; and `normalizeEmail` of src/domain/Schema.ts. A
-- user is kept without the columns that no modelled operation reads.
pub mod Transactions
pub mod Lookup
use effect_auth.Prelude.{
  ℕ, ◌+◌, Bool, true, false, not, ◌&&◌, ◌||◌, Option, none, some, List, [], ◌∷◌, ◌++◌, Text,
  text_eq, nat_eq, codes, leb, ltb, ◌==◌, any, head?, if◌then◌else◌,
}
use mathlib.Core.List.{reverse}
use effect_auth.Runtime.{
  World, User, Auth, Result, ok, err, persistence, unique_violation, pure, now, persist, ◌>>=◌,
}
use effect_auth.Sql.{update_and_read}
use effect_auth.Sessions.Store.{find_user}

-- The white space of JavaScript.
abbrev pub is_space : ℕ → Bool
is_space c =
    (leb 9 c && leb c 13)
    || c == 32
    || c == 160
    || c == 5760
    || (leb 8192 c && leb c 8202)
    || c == 8232
    || c == 8233
    || c == 8239
    || c == 8287
    || c == 12288
    || c == 65279

unfoldable pub trim_start : Text → Text
trim_start [] = []
trim_start (c ∷ t) = if is_space c then trim_start t else c ∷ t

abbrev pub trim : Text → Text
trim t = reverse (trim_start (reverse (trim_start t)))

abbrev pub lower_ascii : ℕ → ℕ
lower_ascii c = if leb 65 c && leb c 90 then c + 32 else c

module _ (lower_other : ℕ → Text) where
  -- `toLowerCase`, with the units beyond ASCII as a parameter.
  unfoldable pub to_lower : Text → Text
  to_lower [] = []
  to_lower (c ∷ t) =
      let rest = to_lower t in if ltb c 128 then lower_ascii c ∷ rest else lower_other c ++ rest

  unfoldable pub normalize_email : Text → Text
  normalize_email email = to_lower (trim email)

-- The primary key and the unique index on the address.
abbrev pub clashes : User → List User → Bool
clashes user rows = any (λ row. row.id == user.id || row.email == user.email) rows

unfoldable pub create : User → Auth User
create user = persist (codes "UserStore.create") (λ w.
    if clashes user w.users
    then (err (unique_violation (codes "UserStore.create")), w)
    else (ok user, record w { users = w.users ++ user ∷ [] }))

unfoldable pub find_by_id : Text → Auth (Option User)
find_by_id id = persist (codes "UserStore.findById") (λ w. (ok (find_user id w.users), w))

unfoldable pub find_email : Text → List User → Option User
find_email email [] = none
find_email email (user ∷ users) = if user.email == email then some user else find_email email users

unfoldable pub find_by_email : Text → Auth (Option User)
find_by_email email =
    persist (codes "UserStore.findByEmail") (λ w. (ok (find_email email w.users), w))

-- An absent key is left as it is.
pub record UserPatch : Type 0 where
  pub email : Option Text
  pub email_verified : Option Bool

abbrev pub or_kept : {A : Type 0} → Option A → A → A
or_kept none a = a
or_kept (some b) a = b

abbrev pub patched : UserPatch → User → User
patched patch user = record user {
  email = or_kept patch.email user.email;
  email_verified = or_kept patch.email_verified user.email_verified;
}

-- The unique index refuses an address that another row has.
abbrev pub address_taken : Text → Option Text → List User → Bool
address_taken id none rows = false
address_taken id (some email) rows = any (λ row. not (row.id == id) && row.email == email) rows

unfoldable pub update : Text → UserPatch → Auth (Option User)
update id patch = do
  at ← now
  persist (codes "UserStore.update") (λ w.
      if address_taken id patch.email w.users
      then (err (unique_violation (codes "UserStore.update")), w)
      else (let (rows, written) = update_and_read (λ row. row.id == id) (patched patch) w.users in
          (ok (head? written), record w { users = rows })))

-- `SELECT ... FOR UPDATE`: a row that is locked is read, and nothing else happens to it.
unfoldable pub lock_user_row : Text → Auth (Unit {0})
lock_user_row id = persist (codes "UserStore.lockUserRow") (pure tt)

-- The tables go back; the clock, the sources and what has been published do not.
abbrev pub rolled_back : World → World → World
rolled_back before after = record after {
  users = before.users;
  accounts = before.accounts;
  sessions = before.sessions;
  verifications = before.verifications;
  enrolments = before.enrolments;
  recovery_codes = before.recovery_codes;
  trusted_devices = before.trusted_devices;
}

abbrev pub ended : {A : Type 0} → World → Result A × World → Result A × World
ended before (ok a, w) = (ok a, w)
ended before (err e, w) = (err e, rolled_back before w)

abbrev pub statement_of_transaction : {A : Type 0} → A → Auth A
statement_of_transaction a = persist (codes "WithAuthTransaction.run") (pure a)

-- The transaction begins and commits by calls of the database, which may fail too.
abbrev pub body : {A : Type 0} → Auth A → Auth A
body m = statement_of_transaction tt >>= λ _. m >>= statement_of_transaction

abbrev pub transaction : {A : Type 0} → Auth A → Auth A
transaction m w = ended w (body m w)
