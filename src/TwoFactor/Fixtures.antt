-- ===== src/TwoFactor/Fixtures.antt =====
-- A deployment of the two-factor plugin and a user who has enrolled.
use effect_auth.Prelude.{ℕ, suc, ◌+◌, none, [], Text, codes}
use effect_auth.Prelude.Maps.{set}
use effect_auth.Prelude.{true}
use effect_auth.Sessions.{SessionConfig}
use effect_auth.Verifications.{Codec}
use effect_auth.SignIn.{Hooks}
use effect_auth.TwoFactor.Challenge.{PendingAuthPayload}
use effect_auth.Runtime.{TotpEnrolment}
use effect_auth.Prelude.{some}
use effect_auth.Runtime.{World, ok}
use effect_auth.Runtime.Fixtures.{alice, start}
use effect_auth.Totp.{Algorithm}
use effect_auth.TwoFactor.Service.{Settings, Platform}

abbrev pub pending : TotpEnrolment
pending = record {
  user_id = alice.id;
  secret_ciphertext = codes "sealed";
  verified_at = none;
  last_used_step = none;
  created_at = 900;
}

abbrev pub no_other : ℕ → Text
no_other c = []

abbrev pub active : TotpEnrolment
active = record pending { verified_at = some 950 }

abbrev pub enrolled : World
enrolled = record start { enrolments = set alice.id active []; clock = λ n. 61000 + n }

abbrev pub settings : Settings
settings = record {
  window = 1;
  period = 30;
  digits = 6;
  algorithm = Algorithm.sha_1;
  enrolment_ttl = 600;
  pending_auth_ttl = 600;
  recovery_code_count = 10;
  low_recovery_codes = 2;
}

-- A tag that is the message: it begins with zeros.
abbrev pub platform : Platform
platform = record {
  sign = λ algorithm key message. message;
  digest = λ t. t;
  encrypt = λ nonce bytes user. bytes;
  decrypt = λ sealed user. some sealed;
  random_bytes = λ n drawn. drawn;
  upper_other = no_other;
  spend_attempt = λ user w. (ok tt, record w { coded = suc w.coded });
}

abbrev pub codec : Codec PendingAuthPayload
codec = record {
  encode = λ payload. some payload.user_id;
  decode = λ stored.
      some
        (record { user_id = stored; evidence = []; remember_me = true; method = codes "password" });
}

abbrev pub config : SessionConfig
config = record {
  expires_in = 700;
  update_age = 100;
  fresh_age = 50;
  remember_me_disabled_expires_in = 200;
}

abbrev pub open_hooks : Hooks
open_hooks = record { before_session_create = none; before_session_mint = none }
