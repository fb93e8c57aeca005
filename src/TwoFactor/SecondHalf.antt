-- ===== src/TwoFactor/SecondHalf.antt =====
-- What stands behind a session that the second half of a sign-in returns.
use effect_auth.Prelude.{suc, ◌≡◌, Option, some, Text}
use effect_auth.Runtime.{World, User, Auth, ok}
use effect_auth.Sql.{Dialect}
use effect_auth.Sessions.{SessionConfig, Evidence}
use effect_auth.Sessions.Store.{find_user}
use effect_auth.Verifications.{Base64, Codec, Claimed, SubjectToken, TokenPurpose, claim}
use effect_auth.SignIn.{CompleteOptions, SignInResult, Hooks, Decider}
use effect_auth.SignIn.Mint.{IsCompleted}
use effect_auth.Verifications.Claims.{IsClaimed}
use effect_auth.TwoFactor.Service.{Settings, Platform, totp_code}
use effect_auth.TwoFactor.Checks.{IsChecked}
use effect_auth.TwoFactor.Challenge.{
  PendingAuthPayload, VerifyOptions, VerifyResult, pending_subject, pending_auth_purpose, attempt,
  second_half, concluded, finish,
}

module _ (settings : Settings) (platform : Platform) (base64 : Base64) (hash_token : Text → Text)
    (config : SessionConfig) (dialect : Dialect) (hooks : Hooks) (decide : Option Decider)
    (codec : Codec PendingAuthPayload) (token code : Text)
    (ip_address user_agent : Option Text) where
  abbrev pub with_code : VerifyOptions
  with_code = record {
    subject = pending_subject token;
    factor = totp_code code;
    ip_address = ip_address;
    user_agent = user_agent;
  }

  abbrev pub interrupted : TokenPurpose PendingAuthPayload
  interrupted =
      pending_auth_purpose settings platform base64 hash_token config dialect hooks decide codec

  abbrev pub both_halves : PendingAuthPayload → Evidence → User → CompleteOptions
  both_halves payload e user =
      second_half settings platform base64 hash_token config dialect hooks decide codec with_code
        payload e user

  abbrev checked_by : SubjectToken → Claimed PendingAuthPayload → Auth Evidence
  checked_by parts claimed =
      attempt settings platform base64 hash_token config dialect hooks decide codec claimed
        parts.secret (totp_code code)

  abbrev finished_by : PendingAuthPayload → Evidence → Auth VerifyResult
  finished_by payload e =
      finish settings platform base64 hash_token config dialect hooks decide codec with_code payload
        e

  abbrev concluded_by : User → PendingAuthPayload → SignInResult → Auth VerifyResult
  concluded_by user payload minted =
      concluded settings platform base64 hash_token config dialect hooks decide codec with_code user
        payload.remember_me minted

  -- The challenge was pending and is used up, the attempt was within the budget, the code was
  -- that of the user of the challenge, and the sign-in was completed with the evidence of both
  -- halves.
  pub record IsFinished (before : World) (result : VerifyResult) (after : World) : Type 0 where
    pub claimed : Claimed PendingAuthPayload
    pub evidence : Evidence
    pub left : World
    pub spent : World
    pub checked : World
    pub holder : User
    pub taken : claim base64 hash_token dialect interrupted token before ≡ (ok claimed, left)
    pub used : IsClaimed base64 hash_token dialect interrupted token before claimed left
    pub budget : platform.spend_attempt claimed.payload.user_id left ≡ (ok tt, spent)
    pub proved : IsChecked settings platform claimed.payload.user_id code spent evidence checked
    pub person : find_user claimed.payload.user_id checked.users ≡ some holder
    pub completed :
        IsCompleted hash_token config hooks decide
          (both_halves claimed.payload evidence holder)
          (record checked { calls = suc checked.calls })
          result.session
          result.user
          result.token
          after

  record IsTried (claimed : Claimed PendingAuthPayload) (e : Evidence) (left checked : World)
      : Type 0 where
    spent : World
    budget : platform.spend_attempt claimed.payload.user_id left ≡ (ok tt, spent)
    proved : IsChecked settings platform claimed.payload.user_id code spent e checked

  record IsSigned (payload : PendingAuthPayload) (e : Evidence) (checked : World)
      (result : VerifyResult) (after : World) : Type 0 where
    holder : User
    person : find_user payload.user_id checked.users ≡ some holder
    completed :
        IsCompleted hash_token config hooks decide
          (both_halves payload e holder)
          (record checked { calls = suc checked.calls })
          result.session
          result.user
          result.token
          after
