-- ===== src/Accounts/Tests.antt =====
-- The theorems on the removal of an account at a user with two, and on a third that is linked.
use effect_auth.Prelude.{ℕ, ◌≡◌, refl, ◌⊎◌, true, none, some, [], ◌∷◌, Text, codes, text_beq}
use effect_auth.Runtime.{World, Account, ok}
use effect_auth.Runtime.Fixtures.{alice, start}
use effect_auth.Sessions.Store.{has_user}
use effect_auth.Users
use effect_auth.Users.{trim_start, to_lower, normalize_email, find_email}
use effect_auth.Accounts.{
  OAuthIdentity, LinkResult, UserHooks, attached, attach, link_existing, insert_account,
  attempt_link_oauth, link_oauth, unlink,
}
use effect_auth.Accounts.Store
use effect_auth.Accounts.Store.{credential_issuer}
use effect_auth.Accounts.Unlink.{Unlinked, unlink-Unlinked}
use effect_auth.Accounts.Linking.{Resolved, link_oauth-Resolved}

abbrev password : Account
password = record {
  id = codes "a1";
  issuer = credential_issuer;
  account_id = alice.id;
  provider_id = codes "credential";
  user_id = alice.id;
  password_hash = some (codes "h");
  created_at = 900;
  updated_at = 900;
}

abbrev social : Account
social = record password {
  id = codes "a2";
  issuer = codes "https://accounts.example";
  provider_id = codes "example";
  password_hash = none;
}

abbrev holding : World
holding = record start { accounts = password ∷ social ∷ [] }

unlink-Unlinked_example :
    Unlinked
      (λ u w. (ok 0, w))
      (codes "a2")
      alice.id
      holding
      (unlink (λ u w. (ok 0, w)) (codes "a2") alice.id holding)
unlink-Unlinked_example =
    unlink-Unlinked (λ u w. (ok 0, w)) (codes "a2") alice.id holding (λ w. refl)

abbrev no_other : ℕ → Text
no_other c = []

abbrev hooks : UserHooks
hooks = record { before_user_create = none; after_user_create = none; before_account_link = none }

abbrev identity : OAuthIdentity
identity = record {
  issuer = codes "https://id.example";
  account_id = codes "7";
  provider_id = codes "example";
  email = 65 ∷ 64 ∷ [];
  email_verified = true;
}

abbrev done : World
done = (link_oauth no_other hooks [] identity holding).1

abbrev outcome : LinkResult
outcome = attached alice (record social {
  id = holding.ids 0;
  issuer = identity.issuer;
  account_id = identity.account_id;
  created_at = 1000;
  updated_at = 1001;
})

links : link_oauth no_other hooks [] identity holding ≡ (ok outcome, done)
unfolding text_beq trim_start to_lower normalize_email link_oauth attempt_link_oauth
    Store.find_by_issuer_account_id Users.find_by_email find_email attach link_existing
    Users.lock_user_row insert_account Store.create has_user
links = refl

link_oauth-Resolved_example :
    Resolved no_other hooks [] identity holding outcome
    ⊎ Resolved no_other hooks [] identity
        (attempt_link_oauth no_other hooks [] identity holding).1
        outcome
link_oauth-Resolved_example =
    link_oauth-Resolved no_other hooks [] identity holding done outcome links
