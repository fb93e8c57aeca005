-- ===== src/TwoFactor/Replay.antt =====
-- Which steps the enrolment of one user accepts, in any interleaving of the statements that the
-- requests of a deployment run against the table.
use effect_auth.Prelude.{
  ℕ, suc, ◌≢◌, refl, Option, none, some, List, [], ◌∷◌, Text, text_eq, ◌==◌, All, beq_ne,
  if◌then◌else◌,
}
use effect_auth.Prelude.Maps.{get, remove, get-remove}
use effect_auth.Prelude.Int.{ℤ}
use effect_auth.Runtime.{World, TotpEnrolment, ok}
use effect_auth.TwoFactor.Store
use effect_auth.TwoFactor.Moves.{
  Before, if_confirmed, if_consumed, HasPassed, Exceeds, Reaches, Moves, Moves-nothing,
  consume-Moves, confirm-Moves, update-Moves, upsert-Moves, if_consumed-written, persist-Moves,
  if_own,
}

-- A statement of some request. Requests overlap, so nothing is said of the order.
pub data FactorStatement : Type 0 where
  upsert : TotpEnrolment → FactorStatement
  confirm : Text → ℕ → ℤ → FactorStatement
  consume : Text → ℤ → FactorStatement
  drop_enrolment : Text → FactorStatement

unfoldable pub perform : FactorStatement → World → World
perform (upsert row) w = (Store.upsert_pending_totp row w).1
perform (confirm user at step) w = (Store.confirm_totp user at step w).1
perform (consume user step) w = (Store.consume_totp_step user step w).1
perform (drop_enrolment user) w = (Store.delete_totp user w).1

module _ (user : Text) where
  -- The step that the statement accepts for the user.
  abbrev pub accepts : FactorStatement → World → Option ℤ
  accepts (confirm u at step) w =
      if u == user then if_confirmed step (Store.confirm_totp u at step w).0 else none
  accepts (consume u step) w =
      if u == user then if_consumed step (Store.consume_totp_step u step w).0 else none
  accepts _ w = none

  abbrev pub and_then : Option ℤ → List ℤ → List ℤ
  and_then none steps = steps
  and_then (some step) steps = step ∷ steps

  abbrev pub accepted : List FactorStatement → World → List ℤ
  accepted [] w = []
  accepted (s ∷ rest) w = and_then (accepts s w) (accepted rest (perform s w))

  -- No statement removes the user's enrolment.
  abbrev pub NeverDropped : List FactorStatement → Type 0
  NeverDropped [] = Unit
  NeverDropped (drop_enrolment u ∷ rest) = (u ≢ user) × NeverDropped rest
  NeverDropped (s ∷ rest) = NeverDropped rest

  abbrev pub Increasing : List ℤ → Type 0
  Increasing [] = Unit
  Increasing (step ∷ steps) = All (Before step) steps × Increasing steps

  abbrev Step : FactorStatement → World → Type 0
  Step s w = Moves user (get user w.enrolments) (get user (perform s w).enrolments) (accepts s w)

  Step-moves : (s : FactorStatement) (w : World) → NeverDropped (s ∷ []) → Step s w
  unfolding perform Store.upsert_pending_totp Store.confirm_totp Store.consume_totp_step
      Store.delete_totp
  Step-moves (upsert row) w never =
      persist-Moves user _ (Store.upsert_row (Store.pending_row row)) (λ _. none) w refl
        (upsert-Moves user (Store.pending_row row) (record w { calls = suc w.calls }))
  Step-moves (confirm u at step) w never =
      persist-Moves user _
        (λ v.
          Store.update_enrolment u (get u v.enrolments) Store.is_pending (Store.confirmed at step)
            v)
        (λ r. if u == user then if_confirmed step r else none) w (if_own user u)
        (update-Moves user u Store.is_pending (Store.confirmed at step) step
          (record w { calls = suc w.calls }) (λ row. confirm-Moves user row at step))
  Step-moves (consume u step) w never =
      persist-Moves user _ (λ v. Store.consume_step u step (get u v.enrolments) v)
        (λ r. if u == user then if_consumed step r else none) w (if_own user u)
        (rw (if_consumed-written user step) (
          update-Moves user u (Store.is_consumable step) (Store.stepped step) step
            (record w { calls = suc w.calls }) (λ row. consume-Moves user row step)))
  Step-moves (drop_enrolment u) w never =
      persist-Moves user _
        (λ v. (
          ok (Store.is_some (get u v.enrolments)),
          record v { enrolments = remove u v.enrolments },
        ))
        (λ _. none) w refl
        (rw (get-remove w.enrolments u user) (rw (beq_ne u user never.0) (Moves-nothing user _)))

  NeverDropped-cases :
      (op : FactorStatement) (ops : List FactorStatement)
      → NeverDropped (op ∷ ops)
      → NeverDropped (op ∷ []) × NeverDropped ops
  NeverDropped-cases (drop_enrolment u) ops h = ((h.0, tt), h.1)
  NeverDropped-cases (upsert row) ops h = (tt, h)
  NeverDropped-cases (confirm u at step) ops h = (tt, h)
  NeverDropped-cases (consume u step) ops h = (tt, h)

  All-and_then :
      (s : ℤ) (step : Option ℤ) (steps : List ℤ)
      → Exceeds user s step
      → All (Before s) steps
      → All (Before s) (and_then step steps)
  All-and_then s none steps e h = h
  All-and_then s (some step) steps e h = (e, h)

  and_then-Increasing :
      (step : Option ℤ) (steps : List ℤ) (row : Option TotpEnrolment)
      → Reaches user step row
      → ((t : ℤ) → HasPassed user t row → All (Before t) steps)
      → Increasing steps
      → Increasing (and_then step steps)
  and_then-Increasing none steps row r later h = h
  and_then-Increasing (some step) steps row r later h = (later step r, h)

  passed-Exceeds :
      (s : ℤ) (ops : List FactorStatement) (w : World)
      → NeverDropped ops
      → HasPassed user s (get user w.enrolments)
      → All (Before s) (accepted ops w)
  passed-Exceeds s [] w never h = tt
  passed-Exceeds s (op ∷ ops) w never h =
      let (here, later) = NeverDropped-cases op ops never in
      let (passed, exceeds) = (Step-moves op w here).keeps s h in
      All-and_then s (accepts op w) _ exceeds (passed-Exceeds s ops (perform op w) later passed)

  -- In any interleaving of the statements of any number of requests, whichever calls fail: as long
  -- as no statement removes the user's enrolment, every step that is accepted for the user, by the
  -- confirmation or by a sign-in, is greater than all those accepted before it, so that no code is
  -- accepted twice.
  pub accepted-Increasing :
      (ops : List FactorStatement) (w : World) → NeverDropped ops → Increasing (accepted ops w)
  accepted-Increasing [] w never = tt
  accepted-Increasing (op ∷ ops) w never =
      let (here, later) = NeverDropped-cases op ops never in
      and_then-Increasing (accepts op w) _ (get user (perform op w).enrolments)
        (Step-moves op w here).reaches
        (λ t passed. passed-Exceeds t ops (perform op w) later passed)
        (accepted-Increasing ops (perform op w) later)
