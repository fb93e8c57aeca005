-- ===== src/TwoFactor/Trust.antt =====
-- src/two-factor/TwoFactor.ts: remembering a browser, listing the browsers and forgetting them. The
-- signed value of the cookie is a parameter, as the MAC is.
use effect_auth.Prelude.{
  ℕ, ◌+◌, ◌==◌, ◌||◌, nat_beq, Bool, false, Option, none, some, List, [], ◌∷◌, ◌++◌, Text, codes,
  ltb, map, length, take, drop, if◌then◌else◌, text_eq,
}
use effect_auth.Runtime.{
  Auth, TrustedDevice, of_text, of_number, pure, now, generate_token, generate_id, ◌>>=◌, ◌>>◌,
}
use effect_auth.Verifications.{index_of}
use effect_auth.TwoFactor.Devices
use effect_auth.TwoFactor.Service.{Platform, publish}

abbrev pub trusted_device_context : Text
trusted_device_context = codes "effect-auth/two-factor/trusted-device/v1" ++ 10 ∷ []

abbrev pub trusted_device_hash_context : Text
trusted_device_hash_context = codes "effect-auth/two-factor/trusted-device-token/v1" ++ 10 ∷ []

abbrev pub device_binding_separator : ℕ
device_binding_separator = 10

-- `Hmac.signedValue` and `Hmac.verifySignedValue`, under a context.
pub record Seal : Type 0 where
  pub signed_value : Text → Text → Text
  pub verify_signed_value : Text → Text → Option Text

pub record Opened : Type 0 where
  pub user_id : Text
  pub token : Text

pub record DeviceSummary : Type 0 where
  pub id : Text
  pub label : Option Text
  pub user_agent : Option Text
  pub ip_address : Option Text
  pub created_at : ℕ
  pub last_used_at : ℕ
  pub expires_at : ℕ
  pub current : Bool

pub record TrustedDeviceIssued : Type 0 where
  pub device : TrustedDevice
  pub value : Text
  pub max_age : ℕ

pub record TrustOptions : Type 0 where
  pub user_id : Text
  pub ip_address : Option Text
  pub user_agent : Option Text
  pub label : Option Text

abbrev pub seal_device : Seal → Text → Text → Text
seal_device seal user_id token =
    seal.signed_value trusted_device_context (user_id ++ device_binding_separator ∷ token)

abbrev pub bound_at : Text → Option ℕ → Option Opened
bound_at payload none = none
bound_at payload (some at) =
    if nat_beq at 0 || nat_beq (at + 1) (length payload)
    then none
    else some (record { user_id = take at payload; token = drop (at + 1) payload })

abbrev pub bound : Option Text → Option Opened
bound none = none
bound (some payload) = bound_at payload (index_of device_binding_separator payload)

abbrev pub open_device : Seal → Text → Option Opened
open_device seal value = bound (seal.verify_signed_value trusted_device_context value)

abbrev pub device_hash : Platform → Text → Text
device_hash platform token = platform.digest (trusted_device_hash_context ++ token)

unfoldable pub trust_device : Platform → Seal → ℕ → TrustOptions → Auth TrustedDeviceIssued
trust_device platform seal ttl options = do
  token ← generate_token
  at ← now
  id ← generate_id
  last_used_at ← now
  created_at ← now
  device ← Devices.create_device (record {
    id = id;
    user_id = options.user_id;
    token_hash = device_hash platform token;
    expires_at = at + ttl;
    last_used_at = last_used_at;
    user_agent = options.user_agent;
    ip_address = options.ip_address;
    label = options.label;
    created_at = created_at;
  })
  publish (codes "TrustedDeviceAdded") options.user_id ((codes "deviceId", of_text device.id) ∷ [])
  pure (record { device = device; value = seal_device seal options.user_id token; max_age = ttl })

-- The digest of the token in a cookie, if the cookie is this user's.
abbrev pub hash_of_opened : Platform → Text → Option Opened → Option Text
hash_of_opened platform user_id none = none
hash_of_opened platform user_id (some opened) =
    if opened.user_id == user_id then some (device_hash platform opened.token) else none

abbrev pub current_hash : Platform → Seal → Text → Option Text → Option Text
current_hash platform seal user_id none = none
current_hash platform seal user_id (some value) =
    hash_of_opened platform user_id (open_device seal value)

abbrev pub is_current : Option Text → Text → Bool
is_current none token_hash = false
is_current (some current) token_hash = token_hash == current

abbrev pub summary : Option Text → TrustedDevice → DeviceSummary
summary current row = record {
  id = row.id;
  label = row.label;
  user_agent = row.user_agent;
  ip_address = row.ip_address;
  created_at = row.created_at;
  last_used_at = row.last_used_at;
  expires_at = row.expires_at;
  current = is_current current row.token_hash;
}

unfoldable pub list_trusted : Platform → Seal → Text → Option Text → Auth (List DeviceSummary)
list_trusted platform seal user_id presented = do
  at ← now
  rows ← Devices.list_devices user_id at
  pure (map (summary (current_hash platform seal user_id presented)) rows)

abbrev pub revoked : Text → Text → ℕ → Auth (Unit {0})
revoked user_id scope count =
    publish (codes "TrustedDeviceRevoked") user_id
      ((codes "scope", of_text scope) ∷ (codes "count", of_number count) ∷ [])

unfoldable pub revoke_device : Text → Text → Auth Bool
revoke_device id user_id = do
  removed ← Devices.delete_device id user_id
  if removed then revoked user_id (codes "single") 1 else pure tt
  pure removed

unfoldable pub revoke_devices : Text → Auth ℕ
revoke_devices user_id = do
  count ← Devices.delete_devices user_id
  if ltb 0 count then revoked user_id (codes "all") count else pure tt
  pure count
