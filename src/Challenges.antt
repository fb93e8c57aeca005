-- ===== src/Challenges.antt =====
-- src/domain/Challenges.ts: short codes over the rows and the claim of
-- src/domain/Verifications.ts. The MAC, UTF-8, base64url and the JSON codec of a row are
-- parameters: src/crypto/Hmac.ts only calls the platform's MAC. Attempts are natural numbers, so
-- the guard against fractions is left out.
pub mod Restores
pub mod Budget
pub mod Answers
mod Tests
use effect_auth.Prelude.{
  ℕ, suc, ◌+◌, ◌-◌, Bool, true, false, Option, none, some, List, [], ◌∷◌, ◌++◌, Text, codes, ltb,
  if◌then◌else◌,
}
use effect_auth.Runtime.{
  World, Auth, Result, Error, ok, err, invalid_token, invalid_code, defect, pure, fail, now,
  from_option, ◌>>=◌, ◌>>◌,
}
use effect_auth.Sql.{Dialect}
use effect_auth.Verifications.{
  Base64, Codec, TokenPurpose, SubjectToken, Claimed, purpose, identifier_of, distance,
  decode_subject_token, issue, claim, retire, encoded, ahead,
}

-- "effect-auth/challenge-code/v1\n"
abbrev pub code_hash_context : Text
code_hash_context = codes "effect-auth/challenge-code/v1" ++ (10 ∷ [])

abbrev pub code_namespace : Text → Text
code_namespace name = name ++ codes "#code"

pub record ChallengeRow : Type 0 where
  pub code_hash : Text
  pub attempts_left : ℕ
  pub payload : Option Text

pub record IssueCodeOptions (P : Type 0) : Type 0 where
  pub purpose : TokenPurpose P
  pub subject : Text
  pub digits : ℕ
  pub ttl : ℕ
  pub attempts : ℕ
  pub payload : P

pub record IssuedCode : Type 0 where
  pub handle : Text
  pub code : Text
  pub expires_at : ℕ

-- What src/crypto/Hmac.ts offers, where `none` is a defect of the platform, and the encodings of
-- `effect` that carry a tag into a row.
pub record Mac : Type 0 where
  pub sign : List ℕ → Option (List ℕ)
  pub verify : List ℕ → List ℕ → Option Bool
  pub utf8 : Text → List ℕ
  pub to_text : List ℕ → Text
  pub of_text : Text → Option (List ℕ)

-- `Token.generateNumericCode`
abbrev pub generate_numeric_code : ℕ → Auth Text
generate_numeric_code digits w =
    (ok (w.numeric_codes digits w.coded), record w { coded = suc w.coded })

-- `Effect.catchTag("InvalidToken", ...)`
unfoldable pub as_invalid_code : {A : Type 0} → Result A × World → Result A × World
as_invalid_code (err invalid_token, w) = (err invalid_code, w)
as_invalid_code (r, w) = (r, w)

abbrev pub row_purpose : Codec ChallengeRow → Text → TokenPurpose ChallengeRow
row_purpose rows name = purpose (code_namespace name) rows

module _ (mac : Mac) where
  abbrev pub signed_bytes : Text → Text → List ℕ
  signed_bytes identifier code = mac.utf8 (code_hash_context ++ code ++ (10 ∷ identifier))

  abbrev pub code_hash_of : Text → Text → Auth Text
  code_hash_of identifier code = do
    tag ← from_option (mac.sign (signed_bytes identifier code)) (defect (codes "hmac"))
    pure (mac.to_text tag)

  -- `none` where the platform fails; a stored hash that is no base64url matches nothing.
  unfoldable pub code_matches : Text → Text → Text → Option Bool
  code_matches identifier code stored = elim (mac.of_text stored) [
    | none ↦ some false
    | some tag ↦ mac.verify (signed_bytes identifier code) tag
  ]

module _ (base64 : Base64) (hash_token : Text → Text) (rows : Codec ChallengeRow) where
  module _ (name : Text) (handle : SubjectToken) (claimed : Claimed ChallengeRow) where
    -- The row again, under the secret of the handle and for what is left of its lifetime.
    unfoldable pub restore : ℕ → Auth (Unit {0})
    restore attempts_left = do
      at ← now
      issue base64 hash_token (record {
        purpose = row_purpose rows name;
        subject = claimed.subject;
        ttl = distance at claimed.verification.expires_at;
        payload = record claimed.payload { attempts_left = attempts_left };
        secret = some handle.secret;
      })
      pure tt

    unfoldable pub spend : {P : Type 0} → Auth (Claimed P)
    spend =
        if ltb 1 claimed.payload.attempts_left
        then restore (claimed.payload.attempts_left - 1) >> fail invalid_code
        else fail invalid_code

  -- What follows the claim, by the outcome of the comparison.
  unfoldable pub answer :
      {P : Type 0}
      → TokenPurpose P
      → SubjectToken
      → Claimed ChallengeRow
      → Option Bool
      → Auth (Claimed P)
  answer wanted handle claimed none = do
    restore wanted.name handle claimed claimed.payload.attempts_left
    fail (defect (codes "hmac"))
  answer wanted handle claimed (some true) = do
    payload ← from_option (wanted.decode_payload claimed.payload.payload) invalid_code
    pure (record {
      subject = claimed.subject;
      payload = payload;
      identifier = claimed.identifier;
      verification = claimed.verification;
    })
  answer wanted handle claimed (some false) = spend wanted.name handle claimed

  abbrev pub claim_row : Dialect → Text → Text → Auth (Claimed ChallengeRow)
  claim_row dialect name raw w =
      as_invalid_code (claim base64 hash_token dialect (row_purpose rows name) raw w)

module _ (base64 : Base64) (hash_token : Text → Text) (mac : Mac) (rows : Codec ChallengeRow) where
  unfoldable pub issue_code : {P : Type 0} → IssueCodeOptions P → Auth IssuedCode
  issue_code options =
      if ltb options.attempts 1
      then fail (defect (codes "a challenge needs at least one attempt"))
      else do
        code ← generate_numeric_code options.digits
        payload ← encoded options.purpose.payload options.payload
        retire options.purpose.name options.subject
        retire (code_namespace options.purpose.name) options.subject
        hash ←
            code_hash_of mac (identifier_of (code_namespace options.purpose.name) options.subject)
              code
        issued ← issue base64 hash_token (record {
          purpose = row_purpose rows options.purpose.name;
          subject = options.subject;
          ttl = ahead options.ttl;
          payload = record {
            code_hash = hash;
            attempts_left = options.attempts;
            payload = payload;
          };
          secret = none;
        })
        pure (record { handle = issued.token; code = code; expires_at = issued.expires_at })

  unfoldable pub verify_code :
      {P : Type 0} → Dialect → TokenPurpose P → Text → Text → Auth (Claimed P)
  verify_code dialect wanted raw code = do
    handle ← from_option (decode_subject_token base64 raw) invalid_code
    claimed ← claim_row base64 hash_token rows dialect wanted.name raw
    answer base64 hash_token rows wanted handle claimed
        (code_matches mac claimed.identifier code claimed.payload.code_hash)

-- Only the row of the code; the link of the same purpose stays.
unfoldable pub retire_code : Text → Text → Auth ℕ
retire_code name subject = retire (code_namespace name) subject
