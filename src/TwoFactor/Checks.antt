-- ===== src/TwoFactor/Checks.antt =====
-- What an accepted factor stands for.
use effect_auth.Prelude.{
  ℕ, suc, ◌≡◌, refl, ap, sym, subst, ◌∙◌, inl, inr, Bool, true, false, Option, none, some, List,
  Text, Bool-cases, beq_self, text_eq, Option-cases,
}
use effect_auth.Prelude.Maps.{get, get-set}
use effect_auth.Prelude.Int.{ℤ}
use effect_auth.Runtime.{
  World, Result, Auth, Error, ◌>>=◌, TotpEnrolment, ok, err, invalid_code, from_option, err-ne-ok,
}
use effect_auth.Runtime.Steps.{bind-ok, ok_injective, world_of, some_injective, persist-cases}
use effect_auth.Sessions.{Evidence}
use effect_auth.Totp
use effect_auth.Totp.Answers.{IsAnswer, IsEarliest, verify_exact}
use effect_auth.TwoFactor.Store
use effect_auth.TwoFactor.Service.{
  Settings, Platform, totp_code, totp_evidence, digits_of, active_of, check_options, check_totp,
  check_factor, evidence_if, lift, spend_step,
}

false_ne_true : ◌≡◌ {A = Bool} false true → ⊥
false_ne_true h = cc

find_totp-ok :
    (u : Text) (w after : World) (found : Option TotpEnrolment)
    → Store.find_totp u w ≡ (ok found, after)
    → (found ≡ get u w.enrolments) × (after ≡ record w { calls = suc w.calls })
unfolding Store.find_totp
find_totp-ok u w after found =
    persist-cases
      (λ r.
        r ≡ (ok found, after)
        → (found ≡ get u w.enrolments) × (after ≡ record w { calls = suc w.calls }))
      _ (λ v. (ok (get u v.enrolments), v)) w (λ h. absurd (err-ne-ok h))
      (λ h. (sym (ok_injective _ found _ after h), sym (world_of _ (ok found) _ after h)))

-- What a consumption that succeeds has found and written.
IsStepped : Text → ℤ → World → World → Type 0
IsStepped u step w after =
    (row : TotpEnrolment) × (get u w.enrolments ≡ some row)
    × (get u after.enrolments ≡ some (Store.stepped step row))

consume_step-ok :
    (u : Text) (step : ℤ) (w v after : World)
    → v.enrolments ≡ w.enrolments
    → Store.consume_step u step (get u v.enrolments) v ≡ (ok true, after)
    → IsStepped u step w after
unfolding IsStepped
consume_step-ok u step w v after same h = elim (Option-cases (get u v.enrolments)) [
  | inl e ↦ absurd (refused (rw e at h))
  | inr (row, e) ↦ elim (Bool-cases (Store.is_consumable step row)) [
    | inl open_guard ↦
        let written = world_of _ (ok true) _ after (rw (e, open_guard) at h) in
        (
          row,
          ap (λ m. get u m) (sym same) ∙ e,
          ap (λ (x : World). get u x.enrolments) (sym written)
              ∙ get-set v.enrolments u u (Store.stepped step row)
              ∙ rw (beq_self u) refl,
        )
    | inr shut ↦ absurd (refused (rw (e, shut) at h))
  ]
]
  where
    refused : {x y : World} → ◌≡◌ {A = Result Bool × World} (ok false, x) (ok true, y) → ⊥
    refused {x} {y} q = false_ne_true (ok_injective false true x y q)

consume_totp_step-ok :
    (u : Text) (step : ℤ) (w after : World)
    → Store.consume_totp_step u step w ≡ (ok true, after)
    → IsStepped u step w after
unfolding Store.consume_totp_step
consume_totp_step-ok u step w after =
    persist-cases (λ r. r ≡ (ok true, after) → IsStepped u step w after) _
      (λ v. Store.consume_step u step (get u v.enrolments) v) w (λ h. absurd (err-ne-ok h))
      (consume_step-ok u step w (record w { calls = suc w.calls }) after refl)

confirmation :
    (row : TotpEnrolment) → Store.is_pending row ≡ false → (at : ℕ) × (row.verified_at ≡ some at)
confirmation row active = elim (Option-cases row.verified_at) [
  | inl pending ↦ absurd (let q = rw pending at active in cc)
  | inr confirmed ↦ confirmed
]

module _ (settings : Settings) (platform : Platform) (user_id code : Text) where
  -- A code without its gaps at a moment, against the key and the last step of an enrolment,
  -- under the deployment's settings.
  abbrev pub asked_of : TotpEnrolment → List ℕ → ℕ → Totp.VerifyOptions
  asked_of row secret at = record {
    secret = secret;
    code = digits_of code;
    now = at;
    window = some settings.window;
    last_used_step = row.last_used_step;
    period = some settings.period;
    digits = some settings.digits;
    algorithm = some settings.algorithm;
  }

  -- The enrolment was active, the code is that of an unused step near the moment, and the step is
  -- used afterwards.
  pub record IsChecked (before : World) (e : Evidence) (after : World) : Type 0 where
    pub evidence : e ≡ totp_evidence
    pub row : TotpEnrolment
    pub secret : List ℕ
    pub step : ℤ
    pub found : get user_id before.enrolments ≡ some row
    pub confirmed_at : ℕ
    pub active : row.verified_at ≡ some confirmed_at
    pub readable : platform.decrypt row.secret_ciphertext row.user_id ≡ some secret
    pub answer : IsAnswer platform.sign (asked_of row secret (before.clock before.reads)) step
    pub used : get user_id after.enrolments ≡ some (record row { last_used_step = some step })

  verify-IsAnswer :
      (options : Totp.VerifyOptions) (step : ℤ)
      → Totp.verify platform.sign options ≡ ok (some step)
      → IsAnswer platform.sign options step
  unfolding Totp.verify
  verify-IsAnswer options step h =
      elim (Bool-cases (Totp.valid_digits (Totp.given_or Totp.default_digits options.digits))) [
        | inl valid ↦
            let (r, e, earliest) = verify_exact platform.sign options valid in
            answered r (sym e ∙ h) earliest
        | inr bad ↦ absurd (failed (rw bad at h))
      ]
    where
      the_step : {s : ℤ} → ◌≡◌ {A = Result (Option ℤ)} (ok (some s)) (ok (some step)) → s ≡ step
      the_step {s} q =
          ap
            (λ (r : Result (Option ℤ)). elim r [
              | ok o ↦ elim o [ some t ↦ t | none ↦ s ]
              | err e ↦ s
            ])
            q

      answered :
          (r : Option ℤ)
          → ◌≡◌ {A = Result (Option ℤ)} (ok r) (ok (some step))
          → IsEarliest platform.sign options r
          → IsAnswer platform.sign options step
      answered none q earliest = absurd (cc)
      answered (some s) q earliest = subst (IsAnswer platform.sign options) (the_step q) earliest.0

      failed : {x : Error} → ◌≡◌ {A = Result (Option ℤ)} (err x) (ok (some step)) → ⊥
      failed q = cc

  -- What is left once the codes have been compared.
  spend_step-IsStepped :
      (matched : Result (Option ℤ)) (w after : World) (e : Evidence)
      → (lift matched >>= spend_step settings platform user_id) w ≡ (ok e, after)
      → (step : ℤ) × (matched ≡ ok (some step))
        × (e ≡ totp_evidence)
        × IsStepped user_id step w after
  spend_step-IsStepped (err x) w after e h = absurd (err-ne-ok h)
  spend_step-IsStepped (ok none) w after e h = absurd (err-ne-ok h)
  spend_step-IsStepped (ok (some step)) w after e h =
      let one =
        bind-ok (Store.consume_totp_step user_id step) (evidence_if settings platform totp_evidence)
          w e after h in
      let (proved, done) = consumed one.value one.between one.first one.rest in
      (step, refl, proved, done)
    where
      consumed :
          (done : Bool) (between : World)
          → Store.consume_totp_step user_id step w ≡ (ok done, between)
          → evidence_if settings platform totp_evidence done between ≡ (ok e, after)
          → (e ≡ totp_evidence) × IsStepped user_id step w after
      consumed false between first rest = absurd (err-ne-ok rest)
      consumed true between first rest = (
        sym (ok_injective totp_evidence e between after rest),
        consume_totp_step-ok user_id step w after (
            first ∙ ap (λ v. (ok true, v)) (world_of (ok totp_evidence) (ok e) between after rest)),
      )

  -- The check of an active row, from a world that holds it.
  check_totp-IsChecked :
      (row : TotpEnrolment) (before w after : World) (e : Evidence)
      → get user_id before.enrolments ≡ some row
      → Store.is_pending row ≡ false
      → w.enrolments ≡ before.enrolments
      → w.clock ≡ before.clock
      → w.reads ≡ before.reads
      → check_totp settings platform user_id row code w ≡ (ok e, after)
      → IsChecked before e after
  unfolding check_totp IsStepped
  check_totp-IsChecked row before w after e found active same clock reads h =
      elim (Option-cases (platform.decrypt row.secret_ciphertext row.user_id)) [
        | inl unreadable ↦ absurd (err-ne-ok (rw unreadable at h))
        | inr (secret, readable) ↦
            let at = w.clock w.reads in
            let (step, matched, proved, (row', there, used)) =
              spend_step-IsStepped
                (Totp.verify platform.sign (check_options settings platform row secret code at))
                (record w { reads = suc w.reads }) after e (rw readable at h) in
            let same_row = some_injective (sym there ∙ ap (λ m. get user_id m) same ∙ found) in
            record {
              evidence = proved;
              row = row;
              secret = secret;
              step = step;
              found = found;
              confirmed_at = (confirmation row active).0;
              active = (confirmation row active).1;
              readable = readable;
              answer =
                  subst (λ t. IsAnswer platform.sign (asked_of row secret t) step)
                    (ap (λ (c : ℕ → ℕ). c w.reads) clock ∙ ap before.clock reads)
                    (verify-IsAnswer (asked_of row secret at) step matched);
              used = used ∙ ap (λ r. some (Store.stepped step r)) same_row;
            }
      ]

  -- A time-based code that is accepted: the user had an active enrolment, the code, without its
  -- gaps, is that of a step within the window of the first reading of the clock that comes after
  -- the step last used, under the enrolment's key and the deployment's settings, afterwards that
  -- step is the one last used, and the evidence is that of a time-based code.
  pub check_factor-IsChecked :
      (before after : World) (e : Evidence)
      → check_factor settings platform user_id (totp_code code) before ≡ (ok e, after)
      → IsChecked before e after
  unfolding check_factor
  check_factor-IsChecked before after e h =
      let read = bind-ok (Store.find_totp user_id) check_found before e after h in
      let (found, same) = find_totp-ok user_id before read.between read.value read.first in
      checked read.value read.between found same read.rest
    where
      check_found : Option TotpEnrolment → Auth Evidence
      check_found enrolment = from_option (active_of enrolment) invalid_code >>= λ active.
          check_totp settings platform user_id active code

      checked :
          (enrolment : Option TotpEnrolment) (between : World)
          → enrolment ≡ get user_id before.enrolments
          → between ≡ record before { calls = suc before.calls }
          → check_found enrolment between ≡ (ok e, after)
          → IsChecked before e after
      checked none between found same rest = absurd (err-ne-ok rest)
      checked (some row) between found same rest = elim (Bool-cases (Store.is_pending row)) [
        | inl pending ↦ absurd (err-ne-ok (rw pending at rest))
        | inr active ↦
            check_totp-IsChecked row before between after e (sym found) active
              (ap (λ (x : World). x.enrolments) same) (ap (λ (x : World). x.clock) same)
              (ap (λ (x : World). x.reads) same) (rw active at rest)
      ]
