-- ===== src/TwoFactor/DeciderTests.antt =====
-- The theorems on the two-factor decider at concrete sign-ins.
use effect_auth.Prelude.{
  ◌≡◌, ◌≢◌, refl, inl, subst, true, false, none, some, [], ◌∷◌, Text, codes, text_beq,
}
use effect_auth.Prelude.Maps.{get, set}
use effect_auth.Assurance.{knowledge, derive_aal}
use effect_auth.Runtime.{World, TrustedDevice, Verification, Session, ok}
use effect_auth.Runtime.Steps.{some_injective}
use effect_auth.Runtime.Fixtures.{alice, tagged}
use effect_auth.Sql.{pg}
use effect_auth.Sessions
use effect_auth.Sessions.{Evidence, stamp_evidence}
use effect_auth.Sessions.Service
use effect_auth.Verifications
use effect_auth.Verifications.{
  Codec, index_of, claim, purpose, identifier_of, encode_subject_token, issue,
}
use effect_auth.Verifications.Fixtures.{shifting, shifting-IsBase64}
use effect_auth.SignIn.{
  CompleteOptions, SignInChallenge, email_password, complete, owed, challenge, run_hook, request_of,
  complete_sign_in, proceed_to_mint, mint, method_of,
}
use effect_auth.TwoFactor.Store
use effect_auth.TwoFactor.Devices
use effect_auth.TwoFactor.Service.{totp_evidence}
use effect_auth.TwoFactor.Trust.{Seal, seal_device, device_hash}
use effect_auth.TwoFactor.Challenge.{PendingAuthPayload, pending_subject, second_half}
use effect_auth.TwoFactor.Decider
use effect_auth.TwoFactor.Decider.{decide, stamped, pending_payload, challenge_kind}
use effect_auth.TwoFactor.Service.{totp_code}
use effect_auth.TwoFactor.Enforced.{Excused, complete_sign_in-Excused}
use effect_auth.TwoFactor.Answered.{second_half-not_owed}
use effect_auth.TwoFactor.Asked.{decide-claim}
use effect_auth.TwoFactor.Fixtures.{enrolled, settings, platform, config, open_hooks}

abbrev password : Evidence
password = record {
  method = codes "password";
  factor = knowledge;
  phishing_resistant = false;
  restricted = false;
  user_verified = none;
  completed_at = none;
}

abbrev options : CompleteOptions
options = record {
  user = alice;
  source = email_password;
  evidence = password ∷ [];
  current = none;
  request = record { remember_me = none; ip_address = none; user_agent = none };
}

abbrev seal : Seal
seal = record { signed_value = λ c t. t; verify_signed_value = λ c t. some t }

-- A browser that alice trusts.
abbrev device : TrustedDevice
device = record {
  id = codes "d1";
  user_id = alice.id;
  token_hash = device_hash platform (codes "k");
  expires_at = 100000;
  last_used_at = 900;
  user_agent = none;
  ip_address = none;
  label = none;
  created_at = 900;
}

abbrev remembered : World
remembered = record enrolled { trusted_devices = device ∷ [] }

abbrev cookie : Text
cookie = seal_device seal alice.id (codes "k")

-- Each payload is stored as its user, and read back as the sign-in at hand.
abbrev codec : Codec PendingAuthPayload
codec = record {
  encode = λ payload. some payload.user_id;
  decode = λ stored. some (record {
    user_id = stored;
    evidence = stamped (password ∷ []) 61000;
    remember_me = true;
    method = codes "password";
  });
}

abbrev row : Session
row =
    Service.new_row tagged config (request_of options) (116 ∷ 1 ∷ []) 61002 (105 ∷ 0 ∷ []) 61003
      61004

abbrev skipped : World
skipped =
    (complete_sign_in tagged config open_hooks
      (some (decide settings platform seal shifting tagged codec (some cookie))) options
      remembered).1

skips :
    complete_sign_in tagged config open_hooks
      (some (decide settings platform seal shifting tagged codec (some cookie)))
      options
      remembered
    ≡ (ok (complete row alice (116 ∷ 1 ∷ [])), skipped)
unfolding complete_sign_in decide text_beq stamp_evidence derive_aal Store.find_totp get set
    Decider.rotate index_of Devices.use_device proceed_to_mint mint Service.create
    Sessions.Store.create Sessions.Store.insert_row
skips = refl

complete_sign_in-Excused_example :
    (between : World) × (run_hook open_hooks.before_session_create options remembered
      ≡ (ok tt, between))
    × Excused settings platform seal shifting tagged codec (some cookie) options between
complete_sign_in-Excused_example =
    complete_sign_in-Excused settings platform seal shifting tagged codec (some cookie) config
      open_hooks options remembered skipped row alice (116 ∷ 1 ∷ []) skips

-- A browser that is not known is asked.
abbrev asked : SignInChallenge
asked = record {
  kind = challenge_kind;
  available = codes "totp" ∷ [];
  token = encode_subject_token shifting alice.id (116 ∷ 0 ∷ []);
  expires_at = 61601;
}

abbrev after_asking : World
after_asking = (decide settings platform seal shifting tagged codec none options enrolled).1

asks :
    decide settings platform seal shifting tagged codec none options enrolled
    ≡ (ok (challenge asked), after_asking)
unfolding decide text_beq stamp_evidence derive_aal Store.find_totp get set Decider.ask
    Decider.factors_for Store.count_recovery_codes issue Verifications.encoded
    Verifications.secret_of purpose Verifications.Store.create Verifications.Store.insert_row
    method_of
asks = refl

decide-claim_example :
    (found : Verification) × (found.expires_at ≡ 61601)
    × ((claim shifting tagged pg (purpose (codes "pending-auth") codec) asked.token after_asking).0
        ≡ ok (record {
          subject = alice.id;
          payload =
              pending_payload settings platform seal shifting tagged codec none options
                (stamped (password ∷ []) 61000);
          identifier = identifier_of (purpose (codes "pending-auth") codec).name alice.id;
          verification = found;
        }))
unfolding decide text_beq stamp_evidence derive_aal Store.find_totp get set Decider.ask
    Decider.factors_for Store.count_recovery_codes issue Verifications.encoded
    Verifications.secret_of purpose Verifications.Store.create Verifications.Store.insert_row
    method_of
decide-claim_example =
    decide-claim settings platform seal shifting tagged codec none options pg enrolled after_asking
      asked shifting-IsBase64
      (λ t e.
        subst
          (λ x.
            codec.decode x
            ≡ some (
                pending_payload settings platform seal shifting tagged codec none options
                  (stamped (password ∷ []) 61000)))
          (some_injective e) refl)
      (λ e. cc) (λ n e. cc) (λ n. refl) asks refl refl

second_half-not_owed_example :
    complete_sign_in tagged config open_hooks
      (some (decide settings platform seal shifting tagged codec none))
      (second_half settings platform shifting tagged config pg open_hooks none codec
        (record {
          subject = pending_subject asked.token;
          factor = totp_code (codes "000 000");
          ip_address = none;
          user_agent = none;
        })
        (record {
          user_id = alice.id;
          evidence = stamped (password ∷ []) 61000;
          remember_me = true;
          method = codes "password";
        })
        totp_evidence
        alice)
      enrolled
    ≢ (ok (owed asked), enrolled)
second_half-not_owed_example =
    second_half-not_owed settings platform seal shifting tagged codec none config pg open_hooks none
      (record {
        subject = pending_subject asked.token;
        factor = totp_code (codes "000 000");
        ip_address = none;
        user_agent = none;
      })
      (record {
        user_id = alice.id;
        evidence = stamped (password ∷ []) 61000;
        remember_me = true;
        method = codes "password";
      })
      totp_evidence alice enrolled enrolled asked (inl refl)
