-- ===== src/TwoFactor/Answered.antt =====
-- A sign-in whose second half is done is not asked for a factor again.
use effect_auth.Prelude.{
  ℕ, suc, ◌≡◌, ◌≢◌, refl, sym, ◌∙◌, ◌⊎◌, inl, inr, true, Option, some, List, [], ◌∷◌, ◌++◌, Text,
  text_beq, arith, map,
}
use effect_auth.Runtime.{World, User, ok}
use effect_auth.Runtime.Steps.{ok_injective}
use effect_auth.Sql.{Dialect}
use effect_auth.Sessions.{SessionConfig, Evidence, stamp_evidence}
use effect_auth.Verifications.{Base64, Codec}
use effect_auth.SignIn.{
  CompleteOptions, SignInChallenge, Hooks, Decider, proceed, challenge, owed, complete_sign_in,
}
use effect_auth.SignIn.Mint.{complete_sign_in-owed}
use effect_auth.TwoFactor.Service.{Settings, Platform, totp_evidence, recovery_code_evidence}
use effect_auth.TwoFactor.Trust.{Seal}
use effect_auth.TwoFactor.Challenge.{PendingAuthPayload, VerifyOptions, as_evidence, second_half}
use effect_auth.TwoFactor.Decider.{is_answer, answered_here, stamped, decide}

answered_last :
    (es : List Evidence) (e : Evidence) (at : ℕ)
    → is_answer (stamp_evidence e at) ≡ true
    → answered_here (stamped (es ++ e ∷ []) at) ≡ true
answered_last [] e at h = ground (arith, h)
answered_last (x ∷ es) e at h = ground (arith, answered_last es e at h)

-- The plugin's own answers.
is_answer-own :
    (e : Evidence) (at : ℕ)
    → (e ≡ totp_evidence) ⊎ (e ≡ recovery_code_evidence)
    → is_answer (stamp_evidence e at) ≡ true
unfolding stamp_evidence text_beq
is_answer-own e at (inl h) = rw h refl
is_answer-own e at (inr h) = rw h refl

module _ (settings : Settings) (platform : Platform) (seal : Seal) (base64 : Base64)
    (hash_token : Text → Text) (codec : Codec PendingAuthPayload) (presented : Option Text) where
  decide-answered :
      (options : CompleteOptions) (w : World)
      → answered_here (stamped options.evidence (w.clock w.reads)) ≡ true
      → decide settings platform seal base64 hash_token codec presented options w
        ≡ (ok proceed, record w { reads = suc w.reads })
  unfolding decide
  decide-answered options w h = rw h refl

  -- With the two-factor plugin's decider, a sign-in that the second half completes with a
  -- time-based code or a recovery code is never owed another challenge, whatever the factor
  -- kinds of the first half were.
  pub second_half-not_owed :
      (config : SessionConfig) (dialect : Dialect) (hooks : Hooks) (other : Option Decider)
      (options : VerifyOptions) (payload : PendingAuthPayload) (e : Evidence) (user : User)
      (w after : World) (c : SignInChallenge)
      → (e ≡ totp_evidence) ⊎ (e ≡ recovery_code_evidence)
      → complete_sign_in hash_token config hooks
          (some (decide settings platform seal base64 hash_token codec presented))
          (second_half settings platform base64 hash_token config dialect hooks other codec options
            payload e user)
          w
        ≢ (ok (owed c), after)
  second_half-not_owed config dialect hooks other options payload e user w after c own h =
      let o =
        complete_sign_in-owed hash_token config hooks
          (some (decide settings platform seal base64 hash_token codec presented))
          (second_half settings platform base64 hash_token config dialect hooks other codec options
            payload e user)
          w after c h in
      let passed =
        decide-answered
          (second_half settings platform base64 hash_token config dialect hooks other codec options
            payload e user)
          o.between
          (answered_last (map as_evidence payload.evidence) e (o.between.clock o.between.reads)
            (is_answer-own e (o.between.clock o.between.reads) own)) in
      clash (
        ok_injective proceed (challenge c) (record o.between { reads = suc o.between.reads }) after
          (sym passed ∙ o.interrupted))
    where
      clash : {c : SignInChallenge} → proceed ≡ challenge c → ⊥
      clash q = cc
