-- ===== src/Verifications.antt =====
-- src/domain/Verifications.ts: subject tokens, purposes and the service that mints, claims and
-- retires single-use tokens; src/sql/stores/Verifications.ts is in Verifications/Store.antt.
-- What the code takes from its libraries is a parameter: base64url, the digest, the JSON codecs.
pub mod Store
pub mod Tokens
pub mod Races
pub mod Claims
pub mod Issues
pub mod Retired
pub mod Codecs
pub mod Fixtures
mod Tests
use effect_auth.Prelude.{
  ℕ, zero, suc, ◌+◌, ◌-◌, ◌≡◌, ◌≢◌, Bool, true, false, ◌&&◌, ◌||◌, Option, none, some, List, [],
  ◌∷◌, ◌++◌, Text, text_eq, codes, leb, nat_beq, length, take, drop, if◌then◌else◌,
}
use effect_auth.Runtime.{
  World, Verification, Auth, Error, invalid_token, defect, pure, fail, now, generate_token,
  generate_id, from_option, ◌>>=◌, ◌>>◌,
}
use effect_auth.Sql.{Dialect}
use effect_auth.Verifications.Store

-- `Encoding.encodeBase64Url` and `Encoding.decodeBase64UrlString` of `effect`.
pub record Base64 : Type 0 where
  pub encode : Text → Text
  pub decode : Text → Option Text

-- A distance between two moments, forwards or backwards.
pub data Span : Type 0 where
  ahead behind : ℕ → Span

abbrev pub add_span : ℕ → Span → ℕ
add_span at (ahead n) = at + n
add_span at (behind n) = at - n

-- `DateTime.distance`
abbrev pub distance : ℕ → ℕ → Span
distance from to = if leb from to then ahead (to - from) else behind (from - to)

abbrev pub subject_token_separator : ℕ
subject_token_separator = b'.'

pub record SubjectToken : Type 0 where
  pub subject : Text
  pub secret : Text

unfoldable pub encode_subject_token : Base64 → Text → Text → Text
encode_subject_token base64 subject secret =
    base64.encode subject ++ (subject_token_separator ∷ secret)

-- `String.indexOf` of one code unit, where -1 is `none`.
unfoldable pub index_of : ℕ → Text → Option ℕ
index_of c [] = none
index_of c (d ∷ t) =
    let later = index_of c t in
    if nat_beq d c then some 0 else elim later [ none ↦ none | some n ↦ some (suc n) ]

unfoldable pub split_at : Base64 → Text → Option ℕ → Option SubjectToken
split_at base64 raw none = none
split_at base64 raw (some at) =
    if nat_beq at 0 || nat_beq (at + 1) (length raw)
    then none
    else elim (base64.decode (take at raw)) [
      | none ↦ none
      | some subject ↦ some (record { subject = subject; secret = drop (at + 1) raw })
    ]

unfoldable pub decode_subject_token : Base64 → Text → Option SubjectToken
unfolding split_at
decode_subject_token base64 raw = split_at base64 raw (index_of subject_token_separator raw)

-- What a payload is stored through: `Schema.fromJsonString` of its schema.
pub record Codec (P : Type 0) : Type 0 where
  pub encode : P → Option Text
  pub decode : Text → Option P

pub record TokenPurpose (P : Type 0) : Type 0 where
  pub name : Text
  pub payload : Option (Codec P)
  pub decode_payload : Option Text → Option P

unfoldable pub decode_absent : Option Text → Option (Unit {0})
decode_absent none = some tt
decode_absent (some stored) = none

-- A purpose with no payload refuses a row that carries one.
unfoldable pub plain_purpose : Text → TokenPurpose (Unit {0})
unfolding decode_absent
plain_purpose name = record { name = name; payload = none; decode_payload = decode_absent }

unfoldable pub decode_present : {P : Type 0} → Codec P → Option Text → Option P
decode_present codec none = none
decode_present codec (some stored) = codec.decode stored

unfoldable pub purpose : {P : Type 0} → Text → Codec P → TokenPurpose P
unfolding decode_present
purpose name codec = record {
  name = name;
  payload = some codec;
  decode_payload = decode_present codec;
}

abbrev pub identifier_of : Text → Text → Text
identifier_of name subject = name ++ (b':' ∷ subject)

pub record IssueOptions (P : Type 0) : Type 0 where
  pub purpose : TokenPurpose P
  pub subject : Text
  pub ttl : Span
  pub payload : P
  pub secret : Option Text

pub record Issued : Type 0 where
  pub token : Text
  pub expires_at : ℕ
  pub identifier : Text

pub record Claimed (P : Type 0) : Type 0 where
  pub subject : Text
  pub payload : P
  pub identifier : Text
  pub verification : Verification

-- The default is a fresh token; an override is the caller's.
unfoldable pub secret_of : Option Text → Auth Text
secret_of none = generate_token
secret_of (some secret) = pure secret

-- `Effect.orDie` of the encoding: a payload that does not fit is a defect.
unfoldable pub encoded : {P : Type 0} → Option (Codec P) → P → Auth (Option Text)
encoded none payload = pure none
encoded (some codec) payload = do
  stored ← from_option (codec.encode payload) (defect (codes "SchemaError"))
  pure (some stored)

module _ (base64 : Base64) (hash_token : Text → Text) where
  unfoldable pub issue : {P : Type 0} → IssueOptions P → Auth Issued
  unfolding secret_of encoded
  issue options = do
    secret ← secret_of options.secret
    at ← now
    payload ← encoded options.purpose.payload options.payload
    id ← generate_id
    created ← now
    updated ← now
    Store.create (record {
      id = id;
      identifier = identifier_of options.purpose.name options.subject;
      value_hash = hash_token secret;
      payload = payload;
      expires_at = add_span at options.ttl;
      created_at = created;
      updated_at = updated;
    })
    pure (record {
      token = encode_subject_token base64 options.subject secret;
      expires_at = add_span at options.ttl;
      identifier = identifier_of options.purpose.name options.subject;
    })

  unfoldable pub claim : {P : Type 0} → Dialect → TokenPurpose P → Text → Auth (Claimed P)
  claim dialect wanted token = do
    parts ← from_option (decode_subject_token base64 token) invalid_token
    consumed ←
        Store.consume dialect (identifier_of wanted.name parts.subject) (hash_token parts.secret)
    verification ← from_option consumed invalid_token
    payload ← from_option (wanted.decode_payload verification.payload) invalid_token
    pure (record {
      subject = parts.subject;
      payload = payload;
      identifier = identifier_of wanted.name parts.subject;
      verification = verification;
    })

unfoldable pub retire : Text → Text → Auth ℕ
retire name subject = Store.delete_by_identifier (identifier_of name subject)

-- The names of `userSubjectPurposes`.
abbrev pub user_subject_purposes : List Text
user_subject_purposes =
    codes "password-reset"
    ∷ codes "change-email-confirm"
    ∷ codes "change-email-verify"
    ∷ codes "delete-account"
    ∷ []

-- `Effect.forEach`, which stops at the first failure.
unfoldable pub retire_each : List Text → Text → Auth (Unit {0})
retire_each [] user_id = pure tt
retire_each (name ∷ names) user_id = do retire name user_id; retire_each names user_id

unfoldable pub retire_user_subject_tokens : Text → Auth (Unit {0})
unfolding retire_each
retire_user_subject_tokens user_id = retire_each user_subject_purposes user_id
