-- ===== src/TwoFactor/Restores.antt =====
-- src/two-factor/TwoFactor.ts: what a wrong factor leaves of an interrupted sign-in.
use effect_auth.Prelude.{
  codes, ℕ, ◌+◌, ◌-◌, ◌≡◌, ◌≢◌, refl, ap, sym, subst, ◌∙◌, true, false, Option, some, [], Text, suc,
  leb, ltb, any,
}
use effect_auth.Runtime.{World, Verification, Error, ok, err, pure}
use effect_auth.Runtime.Steps.{bind-ok, world_of}
use effect_auth.Sql.{Dialect}
use effect_auth.Sessions.{SessionConfig}
use effect_auth.Verifications.{
  Base64, Codec, Claimed, IssueOptions, Issued, ahead, claim, encode_subject_token, identifier_of,
  issue,
}
use effect_auth.Verifications.Tokens.{IsBase64}
use effect_auth.Verifications.Store.{names}
use effect_auth.Verifications.Codecs.{purpose-ReadsBack}
use effect_auth.Verifications.Issues.{issue_sound, secret_of-some, IsIssued-claim}
use effect_auth.SignIn.{Hooks, Decider}
use effect_auth.TwoFactor.Service.{Settings, Platform, Factor, check_factor}
use effect_auth.TwoFactor.Challenge.{
  PendingAuthPayload, is_defect, pending_auth_purpose, reissue_pending, attempt,
}

module _ (settings : Settings) (platform : Platform) (base64 : Base64) (hash_token : Text → Text)
    (config : SessionConfig) (dialect : Dialect) (hooks : Hooks) (decide : Option Decider)
    (codec : Codec PendingAuthPayload) where
  -- How a row goes back.
  abbrev again : PendingAuthPayload → Text → ℕ → ℕ → IssueOptions PendingAuthPayload
  again payload secret expires_at at = record {
    purpose =
        pending_auth_purpose settings platform base64 hash_token config dialect hooks decide codec;
    subject = payload.user_id;
    ttl = ahead (expires_at - at);
    payload = payload;
    secret = some secret;
  }

  record IsBack (payload : PendingAuthPayload) (secret : Text) (expires_at : ℕ) (w after : World)
      : Type 0 where
    issued : Issued
    is_issued :
        issue base64 hash_token
          (again payload secret expires_at (w.clock w.reads))
          (record w { reads = suc w.reads })
        ≡ (ok issued, after)

  reissue_pending-IsBack :
      (payload : PendingAuthPayload) (secret : Text) (expires_at : ℕ) (w after : World)
      → leb expires_at (w.clock w.reads) ≡ false
      → reissue_pending settings platform base64 hash_token config dialect hooks decide codec
          expires_at secret payload w
        ≡ (ok tt, after)
      → IsBack payload secret expires_at w after
  unfolding reissue_pending
  reissue_pending-IsBack payload secret expires_at w after open_still h =
      let one =
        bind-ok (issue base64 hash_token (again payload secret expires_at (w.clock w.reads)))
          (λ _. pure tt) (record w { reads = suc w.reads }) tt after (rw open_still at h) in
      record {
        issued = one.value;
        is_issued =
            one.first
            ∙ ap (λ v. (ok one.value, v)) (world_of (ok tt) (ok tt) one.between after one.rest);
      }

  -- A wrong factor costs an attempt and not the sign-in: where the budget of the challenge's
  -- user gives an attempt, the check that follows on it fails with an error that is no defect,
  -- and the row goes back while the challenge lives, the error is the check's and the world left
  -- is the one in which the attempt is spent and the row back; and there the token with the same
  -- secret is claimed again, with the payload of the first half, while the store answers and the
  -- new row lives. That row's expiry is the old one moved by the time between the two readings
  -- of the clock.
  pub attempt-claim :
      (claimed : Claimed PendingAuthPayload) (secret : Text) (factor : Factor) (e : Error)
      (w spent refused after : World)
      → IsBase64 base64
      → ((t : Text) → codec.encode claimed.payload ≡ some t → codec.decode t ≡ some claimed.payload)
      → claimed.payload.user_id ≢ []
      → secret ≢ []
      → any
          (names
            (identifier_of
              (pending_auth_purpose settings platform base64 hash_token config dialect hooks decide
                codec).name
              claimed.payload.user_id)
            (hash_token secret))
          refused.verifications
        ≡ false
      → platform.spend_attempt claimed.payload.user_id w ≡ (ok tt, spent)
      → check_factor settings platform claimed.payload.user_id factor spent ≡ (err e, refused)
      → is_defect e ≡ false
      → leb claimed.verification.expires_at (refused.clock refused.reads) ≡ false
      → reissue_pending settings platform base64 hash_token config dialect hooks decide codec
          claimed.verification.expires_at secret claimed.payload refused
        ≡ (ok tt, after)
      → after.fault after.calls ≡ false
      → ltb (after.clock after.reads) (
          refused.clock (suc refused.reads)
          + (claimed.verification.expires_at - refused.clock refused.reads))
        ≡ true
      → (row : Verification) × (row.expires_at
          ≡ refused.clock (suc refused.reads)
            + (claimed.verification.expires_at - refused.clock refused.reads))
        × (attempt settings platform base64 hash_token config dialect hooks decide codec claimed
              secret factor w
            ≡ (err e, after))
        × ((claim base64 hash_token dialect
              (pending_auth_purpose settings platform base64 hash_token config dialect hooks decide
                codec)
              (encode_subject_token base64 claimed.payload.user_id secret)
              after).0
            ≡ ok (record {
              subject = claimed.payload.user_id;
              payload = claimed.payload;
              identifier =
                  identifier_of
                    (pending_auth_purpose settings platform base64 hash_token config dialect hooks
                      decide codec).name
                    claimed.payload.user_id;
              verification = row;
            }))
  unfolding attempt
  attempt-claim claimed secret factor e w spent refused after laws law subject_is secret_is unused
        paid failed plain open_still back up live =
      let at = refused.clock refused.reads in
      let options = again claimed.payload secret claimed.verification.expires_at at in
      let b =
        reissue_pending-IsBack claimed.payload secret claimed.verification.expires_at refused after
          open_still back in
      let ready = record refused { reads = suc refused.reads } in
      let i =
        issue_sound base64 hash_token options secret ready ready after b.issued
          (secret_of-some options.secret secret ready refl) b.is_issued in
      let (row, expiry, taken) =
        IsIssued-claim base64 hash_token dialect options secret ready after b.issued laws
          (purpose-ReadsBack base64 hash_token codec (codes "pending-auth") claimed.payload.user_id
            (ahead (claimed.verification.expires_at - at)) claimed.payload (some secret) law)
          subject_is secret_is unused i up
          (subst (λ x. ltb (after.clock after.reads) x ≡ true) (sym i.lifetime) live) in
      (
        row,
        expiry ∙ i.lifetime,
        rw (paid, failed, plain, back) refl,
        sym (ap (λ t. (claim base64 hash_token dialect options.purpose t after).0) i.token) ∙ taken,
      )
