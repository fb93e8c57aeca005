-- ===== src/Passwords/Tests.antt =====
-- Registrations, sign-ins and resets by password at concrete ones.
use effect_auth.Prelude.{
  Option, ℕ, ◌≡◌, refl, sym, subst, text_eq, false, ◌==◌, true, none, some, [], ◌∷◌, ◌++◌, Text,
  codes, text_beq, if◌then◌else◌, map, Bool,
}
use effect_auth.Runtime.{World, User, Account, ok, err, invalid_credentials}
use effect_auth.Runtime.Fixtures.{alice, start, tagged}
use effect_auth.Sessions.{SessionConfig}
use effect_auth.Sessions.Service
use effect_auth.Sessions.Store.{find_user}
use effect_auth.Passwords.Enrolled.{no_hooks}
use effect_auth.Users.Transactions.{called}
use effect_auth.Sessions
use effect_auth.Sql.{Dialect, consume_one}
use effect_auth.Verifications
use effect_auth.Verifications.{
  Base64, subject_token_separator, identifier_of, decode_subject_token, index_of, plain_purpose,
  claim, retire, retire_each, retire_user_subject_tokens,
}
use effect_auth.SignIn.{SignInResult, Hooks, SignInRequest, complete, request_of}
use effect_auth.Users
use effect_auth.Users.{find_email, trim_start, to_lower, normalize_email}
use effect_auth.Accounts
use effect_auth.Accounts.Store.{credential_issuer}
use effect_auth.Passwords.{
  PasswordHasher, PasswordConfig, SignUpOptions, SignInOptions, reset_password, check_policy,
  hash_password, replace_password, verify_password,
}
use effect_auth.Passwords.Entry.{sign_up, sign_in_options, sign_in}
use effect_auth.Passwords.SignIns.{sign_in-refused}
use effect_auth.Runtime.Steps.{some_injective}
use effect_auth.Passwords.Stored.{stored_hash}
use effect_auth.Passwords.Resets.{IsReset, reset_password-IsReset, reset_password-verify_password}

abbrev config : SessionConfig
config = record {
  expires_in = 700;
  update_age = 100;
  fresh_age = 50;
  remember_me_disabled_expires_in = 200;
}

abbrev open_hooks : Hooks
open_hooks = record { before_session_create = none; before_session_mint = none }

abbrev plain_hasher : PasswordHasher
plain_hasher = record {
  hash = λ password salt. some password;
  verify = λ password hash. some (password == hash);
}

abbrev passwords : PasswordConfig
passwords = record {
  min_password_length = 8;
  max_password_length = 64;
  require_email_verification = true;
  auto_sign_in = true;
  password_reset_ttl = 600;
  email_verification_ttl = 600;
}

abbrev no_other : ℕ → Text
no_other c = []

abbrev base64 : Base64
base64 = record { encode = λ t. t; decode = some }

abbrev secret : Text
secret = codes "correct horse"

abbrev credential : Account
credential = record {
  id = codes "a1";
  issuer = credential_issuer;
  account_id = alice.id;
  provider_id = codes "credential";
  user_id = alice.id;
  password_hash = some secret;
  created_at = 900;
  updated_at = 900;
}

abbrev holding : World
holding = record start { accounts = credential ∷ [] }

abbrev request : SignInRequest
request = record { remember_me = none; ip_address = none; user_agent = none }

abbrev options : SignInOptions
options = record { email = alice.email; password = secret; current = none; request = request }

abbrev done : World
done =
    (sign_in no_other plain_hasher [] passwords base64 tagged Dialect.sqlite config open_hooks none
      options holding).1

abbrev outcome : SignInResult
outcome =
    complete
      (Service.new_row tagged config
        (request_of (
          sign_in_options no_other plain_hasher [] passwords base64 tagged Dialect.sqlite config
            open_hooks none options alice))
        (116 ∷ 0 ∷ []) 1000 (105 ∷ 0 ∷ []) 1001 1002)
      alice (116 ∷ 0 ∷ [])

abbrev wrong : SignInOptions
wrong = record options { password = codes "incorrect horse" }

-- A hasher that cannot read a hash without its mark, which is a dollar sign.
abbrev unmark : Text → Text → Option Bool
unmark password [] = none
unmark password (mark ∷ rest) = if mark ∷ [] == codes "$" then some (password == rest) else none

abbrev marked_hasher : PasswordHasher
marked_hasher = record {
  hash = λ password salt. some (36 ∷ password);
  verify = λ password hash. unmark password hash;
}

abbrev with_mark : Account → Account
with_mark account = record account { password_hash = some (36 ∷ secret) }

abbrev marked : World
marked = record holding { accounts = map with_mark holding.accounts }

sign_in-refused_example :
    sign_in no_other marked_hasher
      (codes "$dummy")
      passwords
      base64
      tagged
      Dialect.sqlite
      config
      open_hooks
      none
      wrong
      marked
    ≡ (err invalid_credentials, called (called marked))
unfolding text_beq trim_start to_lower normalize_email find_email
sign_in-refused_example =
    sign_in-refused no_other marked_hasher (codes "$dummy") passwords base64 tagged Dialect.sqlite
      config open_hooks none wrong marked false refl refl refl refl
      (λ user hash f s.
        subst (λ h. marked_hasher.verify wrong.password h ≡ some false)
          (some_injective
            (subst (λ (u : User). stored_hash u.id marked ≡ some hash) (sym (some_injective f)) s))
          refl)

abbrev reset_token : Text
reset_token = alice.id ++ subject_token_separator ∷ codes "t"

abbrev asked : World
asked = record holding {
  verifications =
      record {
        id = codes "v1";
        identifier = identifier_of (codes "password-reset") alice.id;
        value_hash = tagged (codes "t");
        payload = none;
        expires_at = 9000;
        created_at = 900;
        updated_at = 900;
      }
      ∷ [];
}

abbrev renewed : Text
renewed = codes "battery staple"

abbrev reset : World
reset =
    (reset_password no_other plain_hasher [] passwords base64 tagged Dialect.sqlite reset_token
      renewed asked).1

resets :
    reset_password no_other plain_hasher [] passwords base64 tagged Dialect.sqlite reset_token
      renewed asked
    ≡ (ok tt, reset)
unfolding text_beq reset_password check_policy claim decode_subject_token
    Verifications.Store.consume Verifications.Store.consume_now Verifications.Store.consume_row
    consume_one Users.find_by_id find_user hash_password replace_password
    Accounts.Store.update_password_hash Accounts.Store.write_hash retire_user_subject_tokens
    retire_each retire Verifications.Store.delete_by_identifier Verifications.Store.delete_rows
    Sessions.Store.delete_by_user_id Sessions.Store.delete_rows index_of plain_purpose
resets = refl

reset_answers : reset.fault reset.calls ≡ false
unfolding text_beq reset_password check_policy claim decode_subject_token
    Verifications.Store.consume Verifications.Store.consume_now Verifications.Store.consume_row
    consume_one Users.find_by_id find_user hash_password replace_password
    Accounts.Store.update_password_hash Accounts.Store.write_hash retire_user_subject_tokens
    retire_each retire Verifications.Store.delete_by_identifier Verifications.Store.delete_rows
    Sessions.Store.delete_by_user_id Sessions.Store.delete_rows index_of plain_purpose
reset_answers = refl

reset_password-IsReset_example :
    IsReset no_other plain_hasher [] passwords base64 tagged Dialect.sqlite reset_token renewed
      asked reset
reset_password-IsReset_example =
    reset_password-IsReset no_other plain_hasher [] passwords base64 tagged Dialect.sqlite
      reset_token renewed asked reset (λ _. refl, tt) resets

reset_password-verify_password_example :
    verify_password no_other plain_hasher [] passwords base64 tagged Dialect.sqlite alice.id renewed
      reset
    ≡ (ok true, called reset)
unfolding decode_subject_token index_of text_beq
reset_password-verify_password_example =
    reset_password-verify_password no_other plain_hasher [] passwords base64 tagged Dialect.sqlite
      reset_token renewed (record { subject = alice.id; secret = codes "t" }) asked reset
      (λ salt hash e.
        subst (λ h. plain_hasher.verify renewed h ≡ some true) (some_injective e) refl)
      (λ _. refl, tt) refl resets reset_answers

abbrev quiet : PasswordConfig
quiet = record passwords { require_email_verification = false; auto_sign_in = false }

abbrev newcomer : SignUpOptions
newcomer = record { email = codes "Carol@b"; password = secret; request = request }

abbrev carol : SignInOptions
carol = record options { email = codes " carol@B" }

abbrev joined : World
joined =
    (sign_up no_other plain_hasher [] quiet base64 tagged Dialect.sqlite config open_hooks none
      no_hooks newcomer holding).1

abbrev member : User
member = record { id = holding.ids 0; email = codes "carol@b"; email_verified = false }
