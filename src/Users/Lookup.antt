-- ===== src/Users/Lookup.antt =====
-- What the lookups of a user find.
use effect_auth.Prelude.{◌≡◌, sym, Option, Text}
use effect_auth.Runtime.{World, User, ok, err-ne-ok}
use effect_auth.Runtime.Steps.{ok_injective, world_of, persist-cases}
use effect_auth.Sessions.Store.{find_user}
use effect_auth.Users.{find_by_id, find_by_email, find_email}
use effect_auth.Users.Transactions.{called}

pub find_by_email-ok :
    (email : Text) (w after : World) (found : Option User)
    → find_by_email email w ≡ (ok found, after)
    → (found ≡ find_email email w.users) × (after ≡ called w)
unfolding find_by_email
find_by_email-ok email w after found =
    persist-cases
      (λ r. r ≡ (ok found, after) → (found ≡ find_email email w.users) × (after ≡ called w)) _
      (λ v. (ok (find_email email v.users), v)) w (λ h. absurd (err-ne-ok h))
      (λ h. (sym (ok_injective _ found _ after h), sym (world_of _ (ok found) _ after h)))

pub find_by_id-ok :
    (id : Text) (w after : World) (found : Option User)
    → find_by_id id w ≡ (ok found, after)
    → (found ≡ find_user id w.users) × (after ≡ called w)
unfolding find_by_id
find_by_id-ok id w after found =
    persist-cases (λ r. r ≡ (ok found, after) → (found ≡ find_user id w.users) × (after ≡ called w))
      _ (λ v. (ok (find_user id v.users), v)) w (λ h. absurd (err-ne-ok h))
      (λ h. (sym (ok_injective _ found _ after h), sym (world_of _ (ok found) _ after h)))
