-- ===== src/SignIn.antt =====
-- src/domain/SignIn.ts: what stands between a verified credential and a session. The hooks of
-- src/domain/Hooks.ts and the decider are the deployment's: parameters that run in the same world.
pub mod Pipeline
pub mod Mint
mod Tests
use effect_auth.Prelude.{ℕ, Bool, true, false, Option, none, some, List, [], ◌∷◌, ◌++◌, Text, codes}
use effect_auth.Runtime.{
  World, Session, User, Auth, Result, ok, err, pure, fail, publish_safely, signed_in, ◌>>=◌, ◌>>◌,
}
use effect_auth.Sessions.{SessionConfig, Evidence, CreateOptions, CreatedSession}
use effect_auth.Sessions.Service

-- `ProvisionSource` of src/domain/Hooks.ts, without the profile that an OAuth source carries.
pub data ProvisionSource : Type 0 where
  email_password magic_link : ProvisionSource
  oauth plugin : Text → ProvisionSource

pub record SignInRequest : Type 0 where
  pub remember_me : Option Bool
  pub ip_address : Option Text
  pub user_agent : Option Text

pub record CompleteOptions : Type 0 where
  pub user : User
  pub source : ProvisionSource
  pub evidence : List Evidence
  pub current : Option (Session × User)
  pub request : SignInRequest

pub record SignInChallenge : Type 0 where
  pub kind : Text
  pub available : List Text
  pub token : Text
  pub expires_at : ℕ

pub data SignInDecision : Type 0 where
  proceed : SignInDecision
  challenge : SignInChallenge → SignInDecision

-- `SignInPipelineService.decide`, which may be undefined.
abbrev pub Decider : Type 0
Decider = CompleteOptions → Auth SignInDecision

abbrev pub decided : Decider → CompleteOptions → SignInDecision → Auth SignInDecision
decided second options (challenge c) = pure (challenge c)
decided second options proceed = second options

unfoldable pub combine : Option Decider → Option Decider → Option Decider
combine none second = second
combine (some first) none = some first
combine (some first) (some second) = some (λ options. first options >>= decided second options)

pub data SignInResult : Type 0 where
  complete : Session → User → Text → SignInResult
  owed : SignInChallenge → SignInResult

unfoldable pub method_of : ProvisionSource → Text
method_of email_password = codes "password"
method_of magic_link = codes "magic-link"
method_of (oauth provider_id) = codes "oauth:" ++ provider_id
method_of (plugin name) = name

-- The hooks that `complete` runs, each of which a deployment may leave out.
pub record HookInput : Type 0 where
  pub user : User
  pub source : ProvisionSource
  pub current : Option (Session × User)

abbrev pub Hook : Type 0
Hook = Option (HookInput → Auth (Unit {0}))

pub record Hooks : Type 0 where
  pub before_session_create : Hook
  pub before_session_mint : Hook

abbrev pub run_hook : Hook → CompleteOptions → Auth (Unit {0})
run_hook none options = pure tt
run_hook (some hook) options =
    hook (record { user = options.user; source = options.source; current = options.current })

abbrev pub run_decider : Option Decider → CompleteOptions → Auth SignInDecision
run_decider none options = pure proceed
run_decider (some decide) options = decide options

abbrev pub request_of : CompleteOptions → CreateOptions
request_of options = record {
  user_id = options.user.id;
  ip_address = options.request.ip_address;
  user_agent = options.request.user_agent;
  remember_me = options.request.remember_me;
  methods = some options.evidence;
  authenticated_at = none;
}

abbrev pub announce : CompleteOptions → CreatedSession → Auth SignInResult
announce options created = do
  publish_safely (
      signed_in options.user.id created.session.id (method_of options.source)
        created.session.methods)
  pure (complete created.session options.user created.token)

module _ (hash_token : Text → Text) (config : SessionConfig) where
  unfoldable pub mint : CompleteOptions → Auth SignInResult
  mint options = Service.create hash_token config (request_of options) >>= announce options

  unfoldable pub proceed_to_mint : Hook → CompleteOptions → Auth SignInResult
  proceed_to_mint before_session_mint options = run_hook before_session_mint options >> mint options

  abbrev pub conclude : Hook → CompleteOptions → SignInDecision → Auth SignInResult
  conclude before_session_mint options (challenge c) = pure (owed c)
  conclude before_session_mint options proceed = proceed_to_mint before_session_mint options

  unfoldable pub complete_sign_in : Hooks → Option Decider → CompleteOptions → Auth SignInResult
  complete_sign_in hooks decide options = do
    run_hook hooks.before_session_create options
    decision ← run_decider decide options
    conclude hooks.before_session_mint options decision
