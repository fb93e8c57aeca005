-- ===== src/TwoFactor/Store.antt =====
-- src/two-factor/Store.ts: the three tables of the plugin, with the keys of
-- src/two-factor/Migrations.ts. The enrolments stand under their primary key, the user.
use effect_auth.Prelude.{
  ℕ, Bool, true, false, not, ◌&&◌, ◌||◌, Option, none, some, List, [], ◌∷◌, ◌++◌, Text, text_eq,
  codes, ltb, ◌==◌, any, filter, length, map, if◌then◌else◌,
}
use effect_auth.Prelude.Maps.{get, set, remove}
use effect_auth.Prelude.Int.{ℤ, leb_ℤ}
use effect_auth.Runtime.{
  World, User, Auth, TotpEnrolment, RecoveryCode, Result, ok, err, persistence, persist,
}
use effect_auth.Sql.{update_and_read, delete_where, delete_and_count}
use effect_auth.Sessions.Store.{has_user}

unfoldable pub find_totp : Text → Auth (Option TotpEnrolment)
find_totp user_id =
    persist (codes "TwoFactorStore.findTotp") (λ w. (ok (get user_id w.enrolments), w))

abbrev pub is_pending : TotpEnrolment → Bool
is_pending enrolment = elim enrolment.verified_at [ none ↦ true | some _ ↦ false ]

-- The columns that the insert writes, whatever the model holds.
abbrev pub pending_row : TotpEnrolment → TotpEnrolment
pending_row enrolment = record enrolment { verified_at = none; last_used_step = none }

abbrev pub write_enrolment : Text → TotpEnrolment → World → World
write_enrolment user_id row w = record w { enrolments = set user_id row w.enrolments }

-- The upsert on the user, under the condition that the row in its way is pending.
abbrev pub upsert_over : TotpEnrolment → Option TotpEnrolment → Auth (Option TotpEnrolment)
upsert_over row none w =
    if has_user row.user_id w.users
    then (ok (some row), write_enrolment row.user_id row w)
    else (err (persistence (codes "TwoFactorStore.upsertPendingTotp")), w)
upsert_over row (some current) w =
    if is_pending current then (ok (some row), write_enrolment row.user_id row w) else (ok none, w)

abbrev pub upsert_row : TotpEnrolment → Auth (Option TotpEnrolment)
upsert_row row w = upsert_over row (get row.user_id w.enrolments) w

unfoldable pub upsert_pending_totp : TotpEnrolment → Auth (Option TotpEnrolment)
upsert_pending_totp enrolment =
    persist (codes "TwoFactorStore.upsertPendingTotp") (upsert_row (pending_row enrolment))

-- An update of the enrolment of one user, where it satisfies the guard.
abbrev pub update_enrolment :
    Text
    → Option TotpEnrolment
    → (TotpEnrolment → Bool)
    → (TotpEnrolment → TotpEnrolment)
    → Auth (Option TotpEnrolment)
update_enrolment user_id none guard f w = (ok none, w)
update_enrolment user_id (some row) guard f w =
    if guard row then (ok (some (f row)), write_enrolment user_id (f row) w) else (ok none, w)

abbrev pub confirmed : ℕ → ℤ → TotpEnrolment → TotpEnrolment
confirmed at step row = record row { verified_at = some at; last_used_step = some step }

unfoldable pub confirm_totp : Text → ℕ → ℤ → Auth (Option TotpEnrolment)
confirm_totp user_id verified_at step = persist (codes "TwoFactorStore.confirmTotp") (λ w.
    update_enrolment user_id (get user_id w.enrolments) is_pending (confirmed verified_at step) w)

abbrev pub is_before : Option ℤ → ℤ → Bool
is_before none step = true
is_before (some last) step = not (leb_ℤ step last)

-- `verified_at IS NOT NULL AND (last_used_step IS NULL OR last_used_step < step)`
abbrev pub is_consumable : ℤ → TotpEnrolment → Bool
is_consumable step row = not (is_pending row) && is_before row.last_used_step step

abbrev pub stepped : ℤ → TotpEnrolment → TotpEnrolment
stepped step row = record row { last_used_step = some step }

abbrev pub is_some : {A : Type 0} → Option A → Bool
is_some none = false
is_some (some _) = true

-- `rows.length > 0`
abbrev pub is_written : Result (Option TotpEnrolment) → Result Bool
is_written (ok row) = ok (is_some row)
is_written (err e) = err e

abbrev pub consume_step : Text → ℤ → Option TotpEnrolment → Auth Bool
consume_step user_id step row w =
    let (written, w') = update_enrolment user_id row (is_consumable step) (stepped step) w in
    (is_written written, w')

unfoldable pub consume_totp_step : Text → ℤ → Auth Bool
consume_totp_step user_id step =
    persist (codes "TwoFactorStore.consumeTotpStep")
      (λ w. consume_step user_id step (get user_id w.enrolments) w)

unfoldable pub delete_totp : Text → Auth Bool
delete_totp user_id = persist (codes "TwoFactorStore.deleteTotp") (λ w. (
  ok (is_some (get user_id w.enrolments)),
  record w { enrolments = remove user_id w.enrolments },
))

abbrev pub is_code_of : Text → RecoveryCode → Bool
is_code_of user_id row = row.user_id == user_id

-- One more row refused by the unique keys: the whole transaction is undone.
abbrev pub code_clashes : RecoveryCode → List RecoveryCode → Bool
code_clashes code rows = any (λ row. row.id == code.id || row.code_hash == code.code_hash) rows

abbrev pub unspent : RecoveryCode → RecoveryCode
unspent code = record code { used_at = none }

unfoldable pub insert_codes :
    List RecoveryCode → List User → List RecoveryCode → Option (List RecoveryCode)
insert_codes [] users rows = some rows
insert_codes (code ∷ rest) users rows =
    let later = insert_codes rest users (rows ++ unspent code ∷ []) in
    if code_clashes code rows || not (has_user code.user_id users) then none else later

abbrev pub commit_codes : Option (List RecoveryCode) → Auth (Unit {0})
commit_codes none w = (err (persistence (codes "TwoFactorStore.replaceRecoveryCodes")), w)
commit_codes (some rows) w = (ok tt, record w { recovery_codes = rows })

-- The ids of the user's rows, as the plain read of the replacement finds them.
unfoldable pub held_codes : Text → World → List Text
held_codes user_id w = map (λ row. row.id) (filter (is_code_of user_id) w.recovery_codes)

abbrev pub is_held : List Text → RecoveryCode → Bool
is_held held row = any (λ id. row.id == id) held

-- The delete by ids and the insert, whenever the ids were read.
unfoldable pub replace_held : List Text → List RecoveryCode → Auth (Unit {0})
replace_held held codes_given = persist (codes "TwoFactorStore.replaceRecoveryCodes") (λ w.
    commit_codes (insert_codes codes_given w.users (delete_where (is_held held) w.recovery_codes))
      w)

-- No other request stands between the read and the writes: `replace_held` with the ids of an
-- earlier state is the transaction that others interrupt.
unfoldable pub replace_recovery_codes : Text → List RecoveryCode → Auth (Unit {0})
replace_recovery_codes user_id codes_given w = replace_held (held_codes user_id w) codes_given w

abbrev pub is_unspent : RecoveryCode → Bool
is_unspent row = elim row.used_at [ none ↦ true | some _ ↦ false ]

abbrev pub is_spendable : Text → Text → RecoveryCode → Bool
is_spendable user_id code_hash row =
    row.user_id == user_id && row.code_hash == code_hash && is_unspent row

abbrev pub spent_at : ℕ → RecoveryCode → RecoveryCode
spent_at used_at row = record row { used_at = some used_at }

unfoldable pub consume_recovery_code : Text → Text → ℕ → Auth Bool
consume_recovery_code user_id code_hash used_at =
    persist (codes "TwoFactorStore.consumeRecoveryCode") (λ w.
      let (rows, written) =
        update_and_read (is_spendable user_id code_hash) (spent_at used_at) w.recovery_codes in
      (ok (ltb 0 (length written)), record w { recovery_codes = rows }))

unfoldable pub count_recovery_codes : Text → Auth ℕ
count_recovery_codes user_id = persist (codes "TwoFactorStore.countRecoveryCodes") (λ w.
    (ok (length (filter (λ row. is_code_of user_id row && is_unspent row) w.recovery_codes)), w))

unfoldable pub delete_recovery_codes : Text → Auth ℕ
delete_recovery_codes user_id = persist (codes "TwoFactorStore.deleteRecoveryCodes") (λ w.
    let (rows, gone) = delete_and_count (is_code_of user_id) w.recovery_codes in
    (ok gone, record w { recovery_codes = rows }))
