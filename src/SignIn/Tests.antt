-- ===== src/SignIn/Tests.antt =====
-- The theorems on sign-ins at concrete ones.
use effect_auth.Prelude.{false, none, some, [], ◌∷◌, codes}
use effect_auth.Assurance.{knowledge}
use effect_auth.Runtime.{World, Session, pure, fail, policy_refused}
use effect_auth.Runtime.Fixtures.{alice, start, tagged}
use effect_auth.Sessions.{SessionConfig, Evidence}
use effect_auth.Sessions.Service
use effect_auth.Sessions.Store
use effect_auth.SignIn.{
  CompleteOptions, SignInChallenge, Decider, Hooks, email_password, proceed, challenge, request_of,
  complete_sign_in,
}

abbrev config : SessionConfig
config = record {
  expires_in = 700;
  update_age = 100;
  fresh_age = 50;
  remember_me_disabled_expires_in = 200;
}

abbrev password : Evidence
password = record {
  method = codes "password";
  factor = knowledge;
  phishing_resistant = false;
  restricted = false;
  user_verified = none;
  completed_at = none;
}

abbrev options : CompleteOptions
options = record {
  user = alice;
  source = email_password;
  evidence = password ∷ [];
  current = none;
  request = record { remember_me = none; ip_address = none; user_agent = none };
}

abbrev open_hooks : Hooks
open_hooks = record { before_session_create = none; before_session_mint = none }

abbrev second_factor : SignInChallenge
second_factor = record {
  kind = codes "totp";
  available = codes "totp" ∷ [];
  token = 1 ∷ [];
  expires_at = 2000;
}

abbrev always_ask : Decider
always_ask o = pure (challenge second_factor)

abbrev always_proceed : Decider
always_proceed o = pure proceed

abbrev refuse : Decider
refuse o = fail (policy_refused (codes "banned"))

abbrev row : Session
row =
    Service.new_row tagged config (request_of options) (116 ∷ 0 ∷ []) 1000 (105 ∷ 0 ∷ []) 1001 1002

abbrev done : World
done = (complete_sign_in tagged config open_hooks (some always_proceed) options start).1
