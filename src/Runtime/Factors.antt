-- ===== src/Runtime/Factors.antt =====
-- src/two-factor/Schema.ts: the rows of the two-factor plugin, and the data of a plugin's event.
use effect_auth.Prelude.{ℕ, Option, Text}
use effect_auth.Prelude.Int.{ℤ}

pub record TotpEnrolment : Type 0 where
  pub user_id : Text
  pub secret_ciphertext : Text
  pub verified_at : Option ℕ
  pub last_used_step : Option ℤ
  pub created_at : ℕ

pub record RecoveryCode : Type 0 where
  pub id : Text
  pub user_id : Text
  pub code_hash : Text
  pub used_at : Option ℕ
  pub created_at : ℕ

pub record TrustedDevice : Type 0 where
  pub id : Text
  pub user_id : Text
  pub token_hash : Text
  pub expires_at : ℕ
  pub last_used_at : ℕ
  pub user_agent : Option Text
  pub ip_address : Option Text
  pub label : Option Text
  pub created_at : ℕ

pub data Datum : Type 0 where
  of_text : Text → Datum
  of_number : ℕ → Datum
