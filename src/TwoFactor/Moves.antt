-- ===== src/TwoFactor/Moves.antt =====
-- What one statement does to the enrolment of a user, and which step it accepts.
use effect_auth.Prelude.{
  ℕ, suc, ◌+◌, ◌≤◌, ◌<◌, ◌≡◌, refl, sym, subst, inl, inr, Bool, true, false, Option, none, some,
  Text, text_eq, text_eq_iff, arith, ◌==◌, Bool-cases, Option-cases, if◌then◌else◌,
}
use effect_auth.Prelude.Maps.{get, set, get-set}
use effect_auth.Prelude.Int.{ℤ, pos_part, neg_part}
use effect_auth.Runtime.{World, Result, Auth, TotpEnrolment, ok, err, persistence, persist}
use effect_auth.Runtime.Steps.{persist-cases}
use effect_auth.Sessions.Store.{has_user}
use effect_auth.TwoFactor.Store

abbrev pub Before : ℤ → ℤ → Type 0
Before a b = pos_part a + neg_part b < pos_part b + neg_part a

abbrev pub if_confirmed : ℤ → Result (Option TotpEnrolment) → Option ℤ
if_confirmed step (ok (some row)) = some step
if_confirmed step _ = none

abbrev pub if_consumed : ℤ → Result Bool → Option ℤ
if_consumed step (ok true) = some step
if_consumed step _ = none

module _ (user : Text) where
  abbrev pub IsPast : ℤ → Option ℤ → Type 0
  IsPast step none = ⊥
  IsPast step (some last) = pos_part step + neg_part last ≤ pos_part last + neg_part step

  -- The enrolment is active and has used the step or a later one.
  abbrev pub HasPassed : ℤ → Option TotpEnrolment → Type 0
  HasPassed step none = ⊥
  HasPassed step (some row) = (Store.is_pending row ≡ false) × IsPast step row.last_used_step

  abbrev pub Exceeds : ℤ → Option ℤ → Type 0
  Exceeds step none = Unit
  Exceeds step (some later) = Before step later

  abbrev pub Reaches : Option ℤ → Option TotpEnrolment → Type 0
  Reaches none row = Unit
  Reaches (some step) row = HasPassed step row

  pub record Moves (before after : Option TotpEnrolment) (step : Option ℤ) : Type 0 where
    pub keeps : (s : ℤ) → HasPassed s before → HasPassed s after × Exceeds s step
    pub reaches : Reaches step after

  pub Moves-nothing : (row : Option TotpEnrolment) → Moves row row none
  Moves-nothing row = record { keeps = λ s h. (h, tt); reaches = tt }

  Moves-idle :
      (row : Option TotpEnrolment) (own : Bool) → Moves row row (if own then none else none)
  Moves-idle row true = Moves-nothing row
  Moves-idle row false = Moves-nothing row

  pub consume-Moves :
      (row : TotpEnrolment) (step : ℤ)
      → Store.is_consumable step row ≡ true
      → Moves (some row) (some (Store.stepped step row)) (some step)
  consume-Moves row step h = record {
    keeps = λ s (active, past).
        let later = exceeds s row.last_used_step past (ground arith) in
        ((active, omega (arith, later)), later);
    reaches = (ground arith, omega arith);
  }
    where
      exceeds :
          (s : ℤ) (last : Option ℤ)
          → IsPast s last
          → Store.is_before last step ≡ true
          → Before s step
      exceeds s none p q = absurd p
      exceeds s (some last) p q = ground arith

  pub confirm-Moves :
      (row : TotpEnrolment) (at : ℕ) (step : ℤ)
      → Store.is_pending row ≡ true
      → Moves (some row) (some (Store.confirmed at step row)) (some step)
  confirm-Moves row at step h = record {
    keeps = λ s (active, past). absurd (cc);
    reaches = (refl, omega arith);
  }

  -- An update of the enrolment of a user under a guard.
  pub update-Moves :
      (u : Text) (guard : TotpEnrolment → Bool) (f : TotpEnrolment → TotpEnrolment) (step : ℤ)
      (w : World)
      → ((row : TotpEnrolment) → guard row ≡ true → Moves (some row) (some (f row)) (some step))
      → Moves
          (get user w.enrolments)
          (get user (Store.update_enrolment u (get u w.enrolments) guard f w).1.enrolments)
          (if u == user
            then if_confirmed step (Store.update_enrolment u (get u w.enrolments) guard f w).0
            else none)
  update-Moves u guard f step w moves = elim (Option-cases (get u w.enrolments)) [
    | inl e ↦ rw e (Moves-idle (get user w.enrolments) (u == user))
    | inr (row, e) ↦ rw e (elim (Bool-cases (guard row)) [
      | inl open_guard ↦ rw open_guard (
          rw (get-set w.enrolments u user (f row)) (elim (Bool-cases (u == user)) [
            | inl own ↦
                let same = (text_eq_iff u user).0 own in
                rw own (
                  subst (λ before. Moves before (some (f row)) (some step))
                    (sym (subst (λ x. get x w.enrolments ≡ some row) same e))
                    (moves row open_guard))
            | inr other ↦ rw other (Moves-nothing _)
          ]))
      | inr shut ↦ rw shut (Moves-idle (get user w.enrolments) (u == user))
    ])
  ]

  pub over-Moves :
      (row : TotpEnrolment) (w : World)
      → ((s : ℤ) → ¬ HasPassed s (get row.user_id w.enrolments))
      → Moves (get user w.enrolments) (get user (set row.user_id row w.enrolments)) none
  over-Moves row w idle =
      rw (get-set w.enrolments row.user_id user row) (elim (Bool-cases (row.user_id == user)) [
        | inl own ↦
            let same = (text_eq_iff row.user_id user).0 own in
            rw own (record {
              keeps = λ s h.
                  absurd (idle s (subst (λ x. HasPassed s (get x w.enrolments)) (sym same) h));
              reaches = tt;
            })
        | inr other ↦ rw other (Moves-nothing _)
      ])

  -- A pending enrolment is written over one that is not active, or nothing is written.
  pub upsert-Moves :
      (row : TotpEnrolment) (w : World)
      → Moves (get user w.enrolments) (get user (Store.upsert_row row w).1.enrolments) none
  upsert-Moves row w = elim (Option-cases (get row.user_id w.enrolments)) [
    | inl e ↦ rw e (elim (Bool-cases (has_user row.user_id w.users)) [
      | inl known ↦ rw known (over-Moves row w (λ s. rw e (λ h. h)))
      | inr unknown ↦ rw unknown (Moves-nothing _)
    ])
    | inr (current, e) ↦ rw e (elim (Bool-cases (Store.is_pending current)) [
      | inl pending ↦ rw pending (over-Moves row w (λ s. rw e (λ h. clash h.0 pending)))
      | inr active ↦ rw active (Moves-nothing _)
    ])
  ]
    where
      clash : {b : Bool} → b ≡ false → b ≡ true → ⊥
      clash p q = cc

  pub if_consumed-written :
      (step : ℤ) (r : Result (Option TotpEnrolment))
      → if_consumed step (Store.is_written r) ≡ if_confirmed step r
  if_consumed-written step (ok none) = refl
  if_consumed-written step (ok (some row)) = refl
  if_consumed-written step (err e) = refl

  -- What an operation makes of the enrolment, and which step it accepts.
  abbrev pub After : {A : Type 0} → Auth A → (Result A → Option ℤ) → World → Type 0
  After m step_of w = Moves (get user w.enrolments) (get user (m w).1.enrolments) (step_of (m w).0)

  -- A call that fails has changed nothing.
  pub persist-Moves :
      {A : Type 0} (operation : Text) (m : Auth A) (step_of : Result A → Option ℤ) (w : World)
      → step_of (err (persistence operation)) ≡ none
      → After m step_of (record w { calls = suc w.calls })
      → After (persist operation m) step_of w
  persist-Moves operation m step_of w silent answers =
      persist-cases (λ r. Moves (get user w.enrolments) (get user r.1.enrolments) (step_of r.0))
        operation m w (subst (Moves _ _) (sym silent) (Moves-nothing (get user w.enrolments)))
        answers

  pub if_own : (u : Text) → ◌≡◌ {A = Option ℤ} (if u == user then none else none) none
  if_own u = elim (Bool-cases (u == user)) [ inl e ↦ rw e refl | inr e ↦ rw e refl ]
