-- ===== src/Runtime/Credentials.antt =====
-- src/domain/Schema.ts: the row of a credential, without a provider's tokens, which no modelled
-- operation reads; the messages of src/config/AuthEmails.ts; and the ways a password breaks the
-- policy.
use effect_auth.Prelude.{ℕ, Option, Text}

pub record Account : Type 0 where
  pub id : Text
  pub issuer : Text
  pub account_id : Text
  pub provider_id : Text
  pub user_id : Text
  pub password_hash : Option Text
  pub created_at : ℕ
  pub updated_at : ℕ

-- The address and the token.
pub data Mail : Type 0 where
  email_mail reset_mail : Text → Text → Mail

pub data PolicyReason : Type 0 where
  too_short too_long : PolicyReason
