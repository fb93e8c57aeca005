-- ===== src/TwoFactor/ServiceTests.antt =====
-- The theorems on the check of a factor and on the answer to a challenge at concrete requests.
use effect_auth.Prelude.{◌≡◌, refl, none, [], ◌∷◌, Text, codes, text_beq}
use effect_auth.Prelude.Maps.{get, set}
use effect_auth.Prelude.Int.{pos}
use effect_auth.Prelude.{some, true, subst}
use effect_auth.Runtime.{World, Verification, ok, err, invalid_code}
use effect_auth.Runtime.Steps.{some_injective}
use effect_auth.TwoFactor.Restores.{attempt-claim}
use effect_auth.Runtime.Fixtures.{alice, tagged}
use effect_auth.Sql.{pg}
use effect_auth.Sessions.{SessionConfig}
use effect_auth.Sessions.Service
use effect_auth.Sessions
use effect_auth.Users
use effect_auth.Verifications
use effect_auth.Verifications.{
  Codec, Claimed, issue, encode_subject_token, identifier_of, claim, purpose,
}
use effect_auth.Verifications.Fixtures.{shifting, shifting-IsBase64}
use effect_auth.SignIn.{request_of}
use effect_auth.TwoFactor.Challenge
use effect_auth.TwoFactor.Challenge.{
  PendingAuthPayload, VerifyOptions, VerifyResult, second_half, pending_auth_purpose, tried,
  attempt, reissue_pending,
}
use effect_auth.TwoFactor.SecondHalf.{with_code}
use effect_auth.Totp
use effect_auth.Totp.{Algorithm}
use effect_auth.TwoFactor.Store
use effect_auth.TwoFactor.Store.{insert_codes}
use effect_auth.TwoFactor.Service.{totp_code, totp_evidence, check_factor, check_totp, digits_of}
use effect_auth.TwoFactor.Checks.{IsChecked, check_factor-IsChecked}
use effect_auth.TwoFactor.Fixtures.{active, enrolled, settings, platform, codec, config, open_hooks}

abbrev after_check : World
after_check = record enrolled {
  enrolments = set alice.id (Store.stepped (pos 1) active) enrolled.enrolments;
  calls = 2;
  reads = 1;
}

accepted_code :
    check_factor settings platform alice.id (totp_code (codes "000 000")) enrolled
    ≡ (ok totp_evidence, after_check)
unfolding check_factor Store.find_totp get set text_beq check_totp Totp.verify Totp.step_at
    Totp.steps_from Totp.matched Totp.equal_codes Totp.difference Totp.code_for Totp.truncate
    Totp.last_byte Totp.byte_at Totp.padded Totp.counter_bytes Totp.bytes_of digits_of
    Store.consume_totp_step
accepted_code = refl

check_factor-IsChecked_example :
    IsChecked settings platform alice.id (codes "000 000") enrolled totp_evidence after_check
check_factor-IsChecked_example =
    check_factor-IsChecked settings platform alice.id (codes "000 000") enrolled after_check
      totp_evidence accepted_code

abbrev pending_token : Text
pending_token = encode_subject_token shifting alice.id (codes "k1")

abbrev challenge_row : Verification
challenge_row = record {
  id = codes "v1";
  identifier = identifier_of (codes "pending-auth") alice.id;
  value_hash = tagged (codes "k1");
  payload = some alice.id;
  expires_at = 100000;
  created_at = 900;
  updated_at = 900;
}

abbrev challenged : World
challenged = record enrolled { verifications = challenge_row ∷ [] }

abbrev presented : VerifyOptions
presented =
    with_code settings platform shifting tagged config pg open_hooks none codec pending_token
      (codes "000 000") none none

abbrev payload : PendingAuthPayload
payload = record {
  user_id = alice.id;
  evidence = [];
  remember_me = true;
  method = codes "password";
}

abbrev finished : VerifyResult
finished = record {
  session =
      Service.new_row tagged config
        (request_of (
          second_half settings platform shifting tagged config pg open_hooks none codec presented
            payload totp_evidence alice))
        (116 ∷ 0 ∷ []) 61002 (105 ∷ 0 ∷ []) 61003 61004;
  user = alice;
  token = 116 ∷ 0 ∷ [];
  remember_me = true;
}

abbrev after_answer : World
after_answer =
    (Challenge.verify settings platform shifting tagged config pg open_hooks none codec presented
      challenged).1

abbrev taken : Claimed PendingAuthPayload
taken = record {
  subject = alice.id;
  payload = payload;
  identifier = challenge_row.identifier;
  verification = challenge_row;
}

-- The world after the wrong code, and the one in which the row is back.
abbrev mistaken : World
mistaken = record enrolled { calls = 1; reads = 1; coded = 1 }

abbrev paid : World
paid = record enrolled { coded = 1 }

abbrev restored : World
restored =
    (reissue_pending settings platform shifting tagged config pg open_hooks none codec 100000
      (codes "k1") payload mistaken).1

wrong_code :
    check_factor settings platform alice.id (totp_code (codes "111 111")) paid
    ≡ (err invalid_code, mistaken)
unfolding check_factor Store.find_totp get set text_beq check_totp Totp.verify Totp.step_at
    Totp.steps_from Totp.matched Totp.equal_codes Totp.difference Totp.code_for Totp.truncate
    Totp.last_byte Totp.byte_at Totp.padded Totp.counter_bytes Totp.bytes_of digits_of
    Store.consume_totp_step
wrong_code = refl

attempt-claim_example :
    (row : Verification) × (row.expires_at ≡ 100001)
    × (attempt settings platform shifting tagged config pg open_hooks none codec taken
          (codes "k1")
          (totp_code (codes "111 111"))
          enrolled
        ≡ (err invalid_code, restored))
    × ((claim shifting tagged pg
          (pending_auth_purpose settings platform shifting tagged config pg open_hooks none codec)
          pending_token
          restored).0
        ≡ ok (record {
          subject = alice.id;
          payload = payload;
          identifier = identifier_of (codes "pending-auth") alice.id;
          verification = row;
        }))
unfolding reissue_pending issue Verifications.encoded Verifications.secret_of purpose
    Verifications.Store.create Verifications.Store.insert_row text_beq
attempt-claim_example =
    attempt-claim settings platform shifting tagged config pg open_hooks none codec taken
      (codes "k1") (totp_code (codes "111 111")) invalid_code enrolled paid mistaken restored
      shifting-IsBase64 (λ t e. subst (λ x. codec.decode x ≡ some payload) (some_injective e) refl)
      (λ e. cc) (λ e. cc) refl refl wrong_code refl refl refl refl refl
