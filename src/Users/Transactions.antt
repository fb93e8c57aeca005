-- ===== src/Users/Transactions.antt =====
-- What a transaction leaves, where it commits and where it does not.
use effect_auth.Prelude.{suc, ◌≡◌, ap, sym, ◌∙◌}
use effect_auth.Runtime.{World, Auth, Result, Error, ok, err, err-ne-ok, pure, ◌>>=◌}
use effect_auth.Runtime.Steps.{bind-ok, ok_injective, world_of, persist-cases}
use effect_auth.Users.{ended, body, transaction, statement_of_transaction}

abbrev pub called : World → World
called w = record w { calls = suc w.calls }

statement-ok :
    {A : Type 0} (a b : A) (w after : World)
    → statement_of_transaction a w ≡ (ok b, after)
    → (a ≡ b) × (after ≡ called w)
statement-ok a b w after =
    persist-cases (λ r. r ≡ (ok b, after) → (a ≡ b) × (after ≡ called w)) _ (pure a) w
      (λ h. absurd (err-ne-ok h))
      (λ h. (ok_injective a b _ after h, sym (world_of (ok a) (ok b) _ after h)))

module _ {A : Type 0} (m : Auth A) (w after : World) where
  ended-ok : (r : Result A × World) (a : A) → ended w r ≡ (ok a, after) → r ≡ (ok a, after)
  ended-ok (ok b, v) a h = h
  ended-ok (err e, v) a h = absurd (err-ne-ok h)

  -- A transaction that succeeds is its body, between two calls.
  pub transaction-ok :
      (a : A)
      → transaction m w ≡ (ok a, after)
      → (v : World) × (m (called w) ≡ (ok a, v)) × (after ≡ called v)
  transaction-ok a h =
      let one =
        bind-ok (statement_of_transaction {A = Unit {0}} tt) (λ _. m >>= statement_of_transaction) w
          a after (ended-ok (body m w) a h) in
      let began = (statement-ok tt one.value w one.between one.first).1 in
      let two = bind-ok m statement_of_transaction one.between a after one.rest in
      let (same, committed) = statement-ok two.value a two.between after two.rest in
      (two.between, ap m (sym began) ∙ two.first ∙ ap (λ b. (ok b, two.between)) same, committed)

  -- The tables of users and credentials, and all the others, are as they were.
  pub record IsRolledBack : Type 0 where
    pub users : after.users ≡ w.users
    pub accounts : after.accounts ≡ w.accounts
    pub sessions : after.sessions ≡ w.sessions
    pub verifications : after.verifications ≡ w.verifications
    pub enrolments : after.enrolments ≡ w.enrolments
    pub recovery_codes : after.recovery_codes ≡ w.recovery_codes
    pub trusted_devices : after.trusted_devices ≡ w.trusted_devices

  ended-err : (r : Result A × World) (e : Error) → ended w r ≡ (err e, after) → IsRolledBack
  ended-err (ok b, v) e h = absurd (err-ne-ok (sym h))
  ended-err (err f, v) e h =
      let same = world_of (err f) (err e) _ after h in
      record {
        users = ap (λ (x : World). x.users) (sym same);
        accounts = ap (λ (x : World). x.accounts) (sym same);
        sessions = ap (λ (x : World). x.sessions) (sym same);
        verifications = ap (λ (x : World). x.verifications) (sym same);
        enrolments = ap (λ (x : World). x.enrolments) (sym same);
        recovery_codes = ap (λ (x : World). x.recovery_codes) (sym same);
        trusted_devices = ap (λ (x : World). x.trusted_devices) (sym same);
      }

  pub transaction-err : (e : Error) → transaction m w ≡ (err e, after) → IsRolledBack
  transaction-err e h = ended-err (body m w) e h
