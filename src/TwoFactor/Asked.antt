-- ===== src/TwoFactor/Asked.antt =====
-- The challenge that the decider raises, and the first half of the sign-in that it keeps.
use effect_auth.Prelude.{
  ℕ, suc, ◌≡◌, ◌≢◌, refl, ap, sym, subst, ◌∙◌, inl, inr, Bool, true, false, Option, none, some,
  List, [], Text, codes, text_eq, any, map, ltb, Bool-cases, ◌==◌,
}
use effect_auth.Assurance.{AuthenticationMethod, is_aal2, derive_aal}
use effect_auth.Runtime.{World, Auth, Result, Verification, TotpEnrolment, ok, pure, ◌>>=◌}
use effect_auth.Runtime.Keeps.{Keeps, bind-Keeps}
use effect_auth.Runtime.Steps.{bind-ok, ok_injective, world_of}
use effect_auth.Sql.{Dialect}
use effect_auth.Verifications.{
  Base64, Codec, IssueOptions, Issued, ahead, purpose, identifier_of, issue, claim,
}
use effect_auth.Verifications.Tokens.{IsBase64}
use effect_auth.Verifications.Codecs.{purpose-ReadsBack}
use effect_auth.Verifications.Issues.{issue-claim}
use effect_auth.Verifications.Store.{names}
use effect_auth.Sessions.{stamp_evidence}
use effect_auth.SignIn.{
  method_of, CompleteOptions, SignInChallenge, SignInDecision, proceed, challenge,
}
use effect_auth.TwoFactor.Store
use effect_auth.TwoFactor.Devices
use effect_auth.TwoFactor.Service.{Settings, Platform, active_of}
use effect_auth.TwoFactor.Trust.{Seal, Opened, device_hash}
use effect_auth.TwoFactor.Challenge.{PendingAuthPayload}
use effect_auth.TwoFactor.Decider.{
  answered_here, belongs_to, factors_for, stamped, rotate, spend_opened, opened_cookie, asked, ask,
  pending_payload, pending_issue, unless_trusted, unless_enrolled, decide,
}

-- The rows of the verifications and the source of tokens are as they were.
abbrev IsUntouched : World → World → Type 0
IsUntouched before w = (w.verifications ≡ before.verifications) × (w.tokens ≡ before.tokens)

module _ (before : World) where
  abbrev Leaves : {A : Type 0} → Auth A → Type 0
  Leaves m = Keeps (IsUntouched before) m

  find_totp-Leaves : (u : Text) → Leaves (Store.find_totp u)
  unfolding Store.find_totp
  find_totp-Leaves u w h = elim (Bool-cases (w.fault w.calls)) [ inl e ↦ rw e h | inr e ↦ rw e h ]

  factors_for-Leaves : (u : Text) → Leaves (factors_for u)
  unfolding factors_for Store.count_recovery_codes
  factors_for-Leaves u w h = elim (Bool-cases (w.fault w.calls)) [ inl e ↦ rw e h | inr e ↦ rw e h ]

  use_device-Leaves : (a b : Text) (at : ℕ) → Leaves (Devices.use_device a b at)
  unfolding Devices.use_device
  use_device-Leaves a b at w h = elim (Bool-cases (w.fault w.calls)) [
    | inl e ↦ rw e h
    | inr e ↦ elim (Bool-cases (Devices.next_taken a b at w.trusted_devices)) [
      | inl t ↦ rw (e, t) h
      | inr t ↦ rw (e, t) h
    ]
  ]

  rotate-Leaves :
      (platform : Platform) (seal : Seal) (presented : Option Text) (u : Text) (opened : Opened)
      → Leaves (rotate platform seal presented u opened)
  unfolding rotate
  rotate-Leaves platform seal presented u opened w h =
      bind-Keeps (IsUntouched before)
        (Devices.use_device (device_hash platform opened.token)
          (device_hash platform (w.tokens w.drawn)) (w.clock w.reads))
        (λ rotated. pure (belongs_to u rotated))
        (use_device-Leaves (device_hash platform opened.token)
          (device_hash platform (w.tokens w.drawn)) (w.clock w.reads))
        (λ r v k. k) (record w { drawn = suc w.drawn; reads = suc w.reads }) h

  spend_opened-Leaves :
      (platform : Platform) (seal : Seal) (presented : Option Text) (u : Text) (o : Option Opened)
      → Leaves (spend_opened platform seal presented u o)
  spend_opened-Leaves platform seal presented u none w h = h
  spend_opened-Leaves platform seal presented u (some opened) w h =
      elim (Bool-cases (opened.user_id == u)) [
        | inl e ↦ rw e (rotate-Leaves platform seal presented u opened w h)
        | inr e ↦ rw e h
      ]

  after_Leaves :
      {A : Type 0} (m : Auth A) (w after : World) (a : A)
      → Leaves m
      → IsUntouched before w
      → m w ≡ (ok a, after)
      → IsUntouched before after
  after_Leaves {A} m w after a leaves h ran =
      subst (IsUntouched before) (ap (λ (r : Result A × World). r.1) ran) (leaves w h)

module _ (settings : Settings) (platform : Platform) (seal : Seal) (base64 : Base64)
    (hash_token : Text → Text) (codec : Codec PendingAuthPayload) (presented : Option Text)
    (options : CompleteOptions) where
  -- The challenge stands for a token that was issued for the pending sign-in.
  record IsPending (before : World) (evidence : List AuthenticationMethod) (c : SignInChallenge)
      (after : World) : Type 0 where
    ready : World
    issued : Issued
    untouched : IsUntouched before ready
    is_issued :
        issue base64 hash_token
          (pending_issue settings platform seal base64 hash_token codec presented options evidence)
          ready
        ≡ (ok issued, after)
    token : c.token ≡ issued.token
    expiry : c.expires_at ≡ issued.expires_at

  never_waived :
      {w after : World} {c : SignInChallenge}
      → ◌≡◌ {A = Result SignInDecision × World} (ok proceed, w) (ok (challenge c), after)
      → ⊥
  never_waived {w} {after} {c} q = cc (ok_injective proceed (challenge c) w after q)

  challenge_injective :
      (a b : SignInChallenge) → ◌≡◌ {A = SignInDecision} (challenge a) (challenge b) → a ≡ b
  challenge_injective a b q =
      ap (λ (d : SignInDecision). elim d [ challenge x ↦ x | proceed ↦ a ]) q

  ask-IsPending :
      (before w after : World) (evidence : List AuthenticationMethod) (c : SignInChallenge)
      → IsUntouched before w
      → ask settings platform seal base64 hash_token codec presented options evidence w
        ≡ (ok (challenge c), after)
      → IsPending before evidence c after
  unfolding ask
  ask-IsPending before w after evidence c h asked_here =
      let one = bind-ok (factors_for options.user.id) issued_for w (challenge c) after asked_here in
      let two =
        bind-ok (issue base64 hash_token pending) (answer one.value) one.between (challenge c) after
          one.rest in
      let is =
        challenge_injective _ c
          (ok_injective (asked_for one.value two.value) (challenge c) two.between after two.rest) in
      let ended = world_of _ (ok (challenge c)) two.between after two.rest in
      record {
        ready = one.between;
        issued = two.value;
        untouched =
            after_Leaves before (factors_for options.user.id) w one.between one.value
              (factors_for-Leaves before options.user.id) h one.first;
        is_issued = two.first ∙ ap (λ v. (ok two.value, v)) ended;
        token = ap (λ (x : SignInChallenge). x.token) (sym is);
        expiry = ap (λ (x : SignInChallenge). x.expires_at) (sym is);
      }
    where
      pending : IssueOptions PendingAuthPayload
      pending =
          pending_issue settings platform seal base64 hash_token codec presented options evidence

      asked_for : List Text → Issued → SignInDecision
      asked_for available issued =
          asked settings platform seal base64 hash_token codec presented available issued

      answer : List Text → Issued → Auth SignInDecision
      answer available issued = pure (asked_for available issued)

      issued_for : List Text → Auth SignInDecision
      issued_for available = issue base64 hash_token pending >>= answer available

  unless_enrolled-IsPending :
      (before w after : World) (evidence : List AuthenticationMethod) (c : SignInChallenge)
      (active : Option TotpEnrolment)
      → IsUntouched before w
      → unless_enrolled settings platform seal base64 hash_token codec presented options evidence
          active w
        ≡ (ok (challenge c), after)
      → IsPending before evidence c after
  unless_enrolled-IsPending before w after evidence c none h ran = absurd (never_waived ran)
  unless_enrolled-IsPending before w after evidence c (some row) h ran =
      let one =
        bind-ok
          (spend_opened platform seal presented options.user.id
            (opened_cookie platform seal presented presented))
          (unless_trusted settings platform seal base64 hash_token codec presented options evidence)
          w (challenge c) after ran in
      asked_unless one.value one.between
        (after_Leaves before
          (spend_opened platform seal presented options.user.id
            (opened_cookie platform seal presented presented))
          w one.between one.value
          (spend_opened-Leaves before platform seal presented options.user.id
            (opened_cookie platform seal presented presented))
          h one.first)
        one.rest
    where
      asked_unless :
          (waived : Bool) (v : World)
          → IsUntouched before v
          → unless_trusted settings platform seal base64 hash_token codec presented options evidence
              waived v
            ≡ (ok (challenge c), after)
          → IsPending before evidence c after
      asked_unless true v k q = absurd (never_waived q)
      asked_unless false v k q = ask-IsPending before v after evidence c k q

  decide-IsPending :
      (before after : World) (c : SignInChallenge)
      → decide settings platform seal base64 hash_token codec presented options before
        ≡ (ok (challenge c), after)
      → IsPending before (stamped options.evidence (before.clock before.reads)) c after
  unfolding decide
  decide-IsPending before after c h = elim (Bool-cases (answered_here evidence)) [
    | inl e ↦ absurd (never_waived (rw e at h))
    | inr e ↦ elim (Bool-cases (is_aal2 (derive_aal evidence))) [
      | inl strong ↦ absurd (never_waived (rw (e, strong) at h))
      | inr weak ↦
          let one =
            bind-ok (Store.find_totp options.user.id) if_enrolled ready (challenge c) after
              (rw (e, weak) at h) in
          unless_enrolled-IsPending before one.between after evidence c (active_of one.value)
            (after_Leaves before (Store.find_totp options.user.id) ready one.between one.value
              (find_totp-Leaves before options.user.id) (refl, refl) one.first)
            one.rest
    ]
  ]
    where
      evidence : List AuthenticationMethod
      evidence = stamped options.evidence (before.clock before.reads)

      ready : World
      ready = record before { reads = suc before.reads }

      if_enrolled : Option TotpEnrolment → Auth SignInDecision
      if_enrolled enrolment =
          unless_enrolled settings platform seal base64 hash_token codec presented options evidence
            (active_of enrolment)

  abbrev pending_identifier : Text
  pending_identifier = identifier_of (purpose (codes "pending-auth") codec).name options.user.id

  -- What the decider is to keep of the first half.
  abbrev first_half : World → PendingAuthPayload
  first_half before = record {
    user_id = options.user.id;
    evidence = map (λ entry. stamp_evidence entry (before.clock before.reads)) options.evidence;
    remember_me = elim options.request.remember_me [ none ↦ true | some b ↦ b ];
    method = method_of options.source;
  }

  -- The token of a challenge that the decider raises is claimed as a pending sign-in of the same
  -- user, with the evidence of the first half as it was stamped, the wish to be remembered and the
  -- method it signed in with, until the moment that the challenge names: where base64url and the
  -- payload's codec read back what they write, no token of the source is empty and no row stands
  -- under the digest of one, and the store answers.
  pub decide-claim :
      (d : Dialect) (before after : World) (c : SignInChallenge)
      → IsBase64 base64
      → ((t : Text)
          → codec.encode (first_half before) ≡ some t
          → codec.decode t ≡ some (first_half before))
      → options.user.id ≢ []
      → ((n : ℕ) → before.tokens n ≢ [])
      → ((n : ℕ)
          → any (names pending_identifier (hash_token (before.tokens n))) before.verifications
            ≡ false)
      → decide settings platform seal base64 hash_token codec presented options before
        ≡ (ok (challenge c), after)
      → after.fault after.calls ≡ false
      → ltb (after.clock after.reads) c.expires_at ≡ true
      → (row : Verification) × (row.expires_at ≡ c.expires_at)
        × ((claim base64 hash_token d (purpose (codes "pending-auth") codec) c.token after).0
            ≡ ok (record {
              subject = options.user.id;
              payload = first_half before;
              identifier = pending_identifier;
              verification = row;
            }))
  decide-claim d before after c laws law user_is tokens_are unused h up live =
      let p = decide-IsPending before after c h in
      let (rows, tokens) = p.untouched in
      let evidence = stamped options.evidence (before.clock before.reads) in
      let token_is = ap (λ (f : ℕ → Text). f p.ready.drawn) tokens in
      let (row, expiry, taken) =
        issue-claim base64 hash_token d
          (pending_issue settings platform seal base64 hash_token codec presented options evidence)
          p.ready after p.issued laws
          (purpose-ReadsBack base64 hash_token codec (codes "pending-auth") options.user.id
            (ahead settings.pending_auth_ttl)
            (pending_payload settings platform seal base64 hash_token codec presented options
              evidence)
            none law)
          refl user_is (λ e. tokens_are p.ready.drawn (sym token_is ∙ e))
          (ap (λ t. any (names pending_identifier (hash_token t)) p.ready.verifications) token_is
            ∙ ap (λ l. any (names pending_identifier (hash_token (before.tokens p.ready.drawn))) l)
                rows
            ∙ unused p.ready.drawn)
          p.is_issued up (subst (λ x. ltb (after.clock after.reads) x ≡ true) p.expiry live) in
      (
        row,
        expiry ∙ sym p.expiry,
        ap (λ t. (claim base64 hash_token d (purpose (codes "pending-auth") codec) t after).0)
              p.token
            ∙ taken,
      )
