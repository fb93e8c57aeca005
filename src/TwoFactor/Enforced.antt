-- ===== src/TwoFactor/Enforced.antt =====
-- What lets a sign-in pass the two-factor decider.
use effect_auth.Prelude.{
  suc, ◌≡◌, ◌≢◌, refl, ap, sym, ◌∙◌, ◌⊎◌, inl, inr, Bool, true, false, Option, none, some, List,
  Memᴰ, Text, text_eq, text_eq_iff, arith, any_sound, map, Bool-cases, Option-cases,
}
use effect_auth.Prelude.Maps.{get}
use effect_auth.Assurance.{
  AuthenticationMethod, no_factor, factor_eq, factor_beq_iff, Aal, aal0, aal1, aal2, is_aal2,
  derive_aal,
}
use effect_auth.Runtime.{World, Session, User, Auth, TotpEnrolment, ok, err-ne-ok, pure, ◌>>=◌}
use effect_auth.Runtime.Steps.{bind-ok, ok_injective, world_of, persist-cases}
use effect_auth.Sessions.{SessionConfig, stamp_evidence}
use effect_auth.Verifications.{Base64, Codec, IssueOptions, Issued, issue}
use effect_auth.SignIn.{
  CompleteOptions, SignInDecision, SignInChallenge, Hooks, proceed, challenge, complete, run_hook,
  complete_sign_in,
}
use effect_auth.SignIn.Mint.{complete_sign_in-complete}
use effect_auth.TwoFactor.Store
use effect_auth.TwoFactor.Service.{Settings, Platform, totp_method, recovery_code_method, active_of}
use effect_auth.TwoFactor.Trusted.{IsTrusted, spend_opened-IsTrusted}
use effect_auth.TwoFactor.Trust.{Seal}
use effect_auth.TwoFactor.Challenge.{PendingAuthPayload}
use effect_auth.TwoFactor.Decider.{
  is_answer, answered_here, stamped, spend_opened, opened_cookie, ask, asked, factors_for,
  pending_issue, unless_trusted, unless_enrolled, decide,
}

find_totp_lem :
    (u : Text) (w after : World) (found : Option TotpEnrolment)
    → Store.find_totp u w ≡ (ok found, after)
    → (found ≡ get u w.enrolments) × (after ≡ record w { calls = suc w.calls })
unfolding Store.find_totp
find_totp_lem u w after found =
    persist-cases
      (λ r.
        r ≡ (ok found, after)
        → (found ≡ get u w.enrolments) × (after ≡ record w { calls = suc w.calls }))
      _ (λ v. (ok (get u v.enrolments), v)) w (λ h. absurd (err-ne-ok h))
      (λ h. (sym (ok_injective _ found _ after h), sym (world_of _ (ok found) _ after h)))

inactive : (row : TotpEnrolment) → active_of (some row) ≡ none → row.verified_at ≡ none
inactive row h = elim (Option-cases row.verified_at) [
  | inl pending ↦ pending
  | inr (at, e) ↦ absurd (let q = rw e at h in cc)
]

module _ (settings : Settings) (platform : Platform) (seal : Seal) (base64 : Base64)
    (hash_token : Text → Text) (codec : Codec PendingAuthPayload) (presented : Option Text) where
  -- The evidence of the sign-in, completed at the first reading of the clock unless it says when.
  abbrev pub completed : CompleteOptions → World → List AuthenticationMethod
  completed options before =
      map (λ e. stamp_evidence e (before.clock before.reads)) options.evidence

  -- Why a sign-in is not asked for a second factor.
  pub data Excused (options : CompleteOptions) (before : World) : Type 0 where
    answered :
        (e : AuthenticationMethod)
        → Memᴰ e (completed options before)
        → e.factor ≢ no_factor
        → (e.method ≡ totp_method) ⊎ (e.method ≡ recovery_code_method)
        → Excused options before
    two_factors : derive_aal (completed options before) ≡ aal2 → Excused options before
    not_enrolled : get options.user.id before.enrolments ≡ none → Excused options before
    unconfirmed :
        (row : TotpEnrolment)
        → get options.user.id before.enrolments ≡ some row
        → row.verified_at ≡ none
        → Excused options before
    trusted : IsTrusted platform seal presented options.user.id before → Excused options before

  is_answer_sound :
      (e : AuthenticationMethod)
      → is_answer e ≡ true
      → (e.factor ≢ no_factor) × ((e.method ≡ totp_method) ⊎ (e.method ≡ recovery_code_method))
  is_answer_sound e h = ground (
    arith,
    factor_beq_iff e.factor no_factor,
    text_eq_iff e.method totp_method,
    text_eq_iff e.method recovery_code_method,
  )

  is_aal2_sound : (a : Aal) → is_aal2 a ≡ true → a ≡ aal2
  is_aal2_sound aal0 h = cc
  is_aal2_sound aal1 h = cc
  is_aal2_sound aal2 h = refl

  -- A challenge is not a waiver.
  ask-proceed :
      (options : CompleteOptions) (evidence : List AuthenticationMethod) (w after : World)
      → ask settings platform seal base64 hash_token codec presented options evidence w
        ≡ (ok proceed, after)
      → ⊥
  unfolding ask
  ask-proceed options evidence w after h =
      let one =
        bind-ok (factors_for options.user.id) (issued_for options evidence) w proceed after h in
      let two =
        bind-ok (issue base64 hash_token (pending options evidence)) (answer one.value) one.between
          proceed after one.rest in
      challenged (ok_injective (asked_for one.value two.value) proceed two.between after two.rest)
    where
      pending : CompleteOptions → List AuthenticationMethod → IssueOptions PendingAuthPayload
      pending options evidence =
          pending_issue settings platform seal base64 hash_token codec presented options evidence

      asked_for : List Text → Issued → SignInDecision
      asked_for available issued =
          asked settings platform seal base64 hash_token codec presented available issued

      answer : List Text → Issued → Auth SignInDecision
      answer available issued = pure (asked_for available issued)

      issued_for : CompleteOptions → List AuthenticationMethod → List Text → Auth SignInDecision
      issued_for options evidence available =
          issue base64 hash_token (pending options evidence) >>= answer available

      challenged : {c : SignInChallenge} → challenge c ≡ proceed → ⊥
      challenged q = cc

  unless_trusted-waived :
      (options : CompleteOptions) (evidence : List AuthenticationMethod) (waived : Bool)
      (w after : World)
      → unless_trusted settings platform seal base64 hash_token codec presented options evidence
          waived w
        ≡ (ok proceed, after)
      → waived ≡ true
  unless_trusted-waived options evidence true w after h = refl
  unless_trusted-waived options evidence false w after h =
      absurd (ask-proceed options evidence w after h)

  -- From the world in which the enrolment has been read.
  unless_enrolled-Excused :
      (options : CompleteOptions) (evidence : List AuthenticationMethod) (before w after : World)
      → w.trusted_devices ≡ before.trusted_devices
      → w.clock ≡ before.clock
      → w.reads ≡ suc before.reads
      → unless_enrolled settings platform seal base64 hash_token codec presented options evidence
          (active_of (get options.user.id before.enrolments))
          w
        ≡ (ok proceed, after)
      → Excused options before
  unless_enrolled-Excused options evidence before w after rows clock reads h =
      elim (Option-cases (active_of (get options.user.id before.enrolments))) [
        | inl absent ↦ unenrolled (Option-cases (get options.user.id before.enrolments)) absent
        | inr (row, e) ↦ skipped (rw e at h)
      ]
    where
      unenrolled :
          (get options.user.id before.enrolments ≡ none)
            ⊎ ((row : TotpEnrolment) × (get options.user.id before.enrolments ≡ some row))
          → active_of (get options.user.id before.enrolments) ≡ none
          → Excused options before
      unenrolled (inl absent) h = not_enrolled absent
      unenrolled (inr (row, e)) h = unconfirmed row e (inactive row (rw e at h))

      skipped :
          (spend_opened platform seal presented options.user.id
                  (opened_cookie platform seal presented presented)
                >>= unless_trusted settings platform seal base64 hash_token codec presented options
                    evidence)
              w
            ≡ (ok proceed, after)
          → Excused options before
      skipped k =
          let one =
            bind-ok
              (spend_opened platform seal presented options.user.id
                (opened_cookie platform seal presented presented))
              (unless_trusted settings platform seal base64 hash_token codec presented options
                evidence)
              w proceed after k in
          let waived =
            unless_trusted-waived options evidence one.value one.between after one.rest in
          trusted (
            spend_opened-IsTrusted platform seal presented options.user.id before w one.between rows
              clock reads (one.first ∙ ap (λ b. (ok b, one.between)) waived))

  decide-Excused :
      (options : CompleteOptions) (before after : World)
      → decide settings platform seal base64 hash_token codec presented options before
        ≡ (ok proceed, after)
      → Excused options before
  unfolding decide
  decide-Excused options before after h = elim (Bool-cases (answered_here evidence)) [
    | inl e ↦
        let (entry, m, q) = any_sound is_answer evidence e in
        let (live, own) = is_answer_sound entry q in answered entry m live own
    | inr e ↦ elim (Bool-cases (is_aal2 (derive_aal evidence))) [
      | inl strong ↦ two_factors (is_aal2_sound _ strong)
      | inr weak ↦
          let one =
            bind-ok (Store.find_totp options.user.id) asked_enrolled ready proceed after
              (rw (e, weak) at h) in
          let (found, ended) =
            find_totp_lem options.user.id ready one.between one.value one.first in
          unless_enrolled-Excused options evidence before one.between after
            (ap (λ (x : World). x.trusted_devices) ended) (ap (λ (x : World). x.clock) ended)
            (ap (λ (x : World). x.reads) ended)
            (ap
                (λ o.
                  unless_enrolled settings platform seal base64 hash_token codec presented options
                    evidence (active_of o) one.between)
                (sym found)
              ∙ one.rest)
    ]
  ]
    where
      evidence : List AuthenticationMethod
      evidence = stamped options.evidence (before.clock before.reads)

      ready : World
      ready = record before { reads = suc before.reads }

      asked_enrolled : Option TotpEnrolment → Auth SignInDecision
      asked_enrolled enrolment =
          unless_enrolled settings platform seal base64 hash_token codec presented options evidence
            (active_of enrolment)

  -- Where the deployment's decider is the two-factor plugin's, a sign-in that mints a session
  -- has two factors in its evidence, or an answer of the plugin's own; or its user has no
  -- enrolment, or one that was never confirmed; or the browser presented, in a cookie sealed for
  -- that user, the token of a device that the user trusts and that had not expired at the
  -- decider's second reading of the clock.
  pub complete_sign_in-Excused :
      (config : SessionConfig) (hooks : Hooks) (options : CompleteOptions) (w after : World)
      (session : Session) (user : User) (token : Text)
      → complete_sign_in hash_token config hooks
          (some (decide settings platform seal base64 hash_token codec presented))
          options
          w
        ≡ (ok (complete session user token), after)
      → (between : World) × (run_hook hooks.before_session_create options w ≡ (ok tt, between))
        × Excused options between
  complete_sign_in-Excused config hooks options w after session user token h =
      let done =
        complete_sign_in-complete hash_token config hooks
          (some (decide settings platform seal base64 hash_token codec presented)) options w after
          session user token h in
      (
        done.between,
        done.permitted,
        decide-Excused options done.between done.undecided done.decided,
      )
