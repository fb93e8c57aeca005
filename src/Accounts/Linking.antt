-- ===== src/Accounts/Linking.antt =====
-- Who a provider's identity is taken for.
use effect_auth.Prelude.{
  ℕ, suc, ◌≡◌, refl, ap, sym, subst, ◌∙◌, ◌⊎◌, inl, inr, true, false, Option, none, some, List,
  Text, text_eq, ◌==◌, any, filter, head?, Bool-cases,
}
use effect_auth.Runtime.{
  World, User, Account, Auth, Result, ok, err, err-ne-ok, pure, from_option, user_not_found,
  publish_safely, user_created, now, generate_id, ◌>>=◌, ◌>>◌,
}
use effect_auth.Runtime.Steps.{bind-ok, ok_injective, from_option-ok}
use effect_auth.Sessions.Store.{find_user}
use effect_auth.SignIn.{oauth, method_of}
use effect_auth.Users
use effect_auth.Users.{normalize_email, find_email}
use effect_auth.Users.Transactions.{called, transaction-ok}
use effect_auth.Users.Lookup.{find_by_email-ok, find_by_id-ok}
use effect_auth.Accounts.Store
use effect_auth.Accounts.Store.{is_account, clashes}
use effect_auth.Accounts.Inserted.{StandsFor, insert_account-StandsFor, link_existing-StandsFor}
use effect_auth.Accounts.{
  OAuthIdentity, LinkResult, UserHooks, run_before_link, provision, insert_account, link_existing,
  linked, attached, known, owner_of, attach, is_unique_violation, register, is_allowed,
  register_and_tell, by_address, by_account, attempt_link_oauth, once_more, link_oauth,
}

abbrev account_of : OAuthIdentity → World → Option Account
account_of identity w = head? (filter (is_account identity.issuer identity.account_id) w.accounts)

module _ (lower_other : ℕ → Text) (hooks : UserHooks) (trusted_providers : List Text)
    (identity : OAuthIdentity) where
  -- An ordinary sign-in: the identity's account is there, and so is its owner.
  pub record IsKnown (w : World) (result : LinkResult) : Type 0 where
    pub held : account_of identity w ≡ some result.account
    pub owner : find_user result.account.user_id w.users ≡ some result.user
    pub nobody_new : result.user_created ≡ false

  -- A user who holds the address: the provider has verified it, and the provider is trusted or the
  -- user has verified it too.
  pub record IsTakenFor (w : World) (result : LinkResult) : Type 0 where
    pub unknown : account_of identity w ≡ none
    pub holder : find_email (normalize_email lower_other identity.email) w.users ≡ some result.user
    pub verified : identity.email_verified ≡ true
    pub vouched :
        (any (λ p. p == identity.provider_id) trusted_providers ≡ true)
        ⊎ (result.user.email_verified ≡ true)
    pub account : StandsFor identity result.user.id result.account
    pub nobody_new : result.user_created ≡ false

  -- Nobody holds the identity or the address.
  pub record IsNew (w : World) (result : LinkResult) : Type 0 where
    pub unknown : account_of identity w ≡ none
    pub free : find_email (normalize_email lower_other identity.email) w.users ≡ none
    pub account : StandsFor identity result.user.id result.account
    pub somebody_new : result.user_created ≡ true

  abbrev pub Resolved : World → LinkResult → Type 0
  Resolved w result = IsKnown w result ⊎ (IsTakenFor w result ⊎ IsNew w result)

  owner_of-IsKnown :
      (w after : World) (account : Account) (result : LinkResult)
      → account_of identity w ≡ some account
      → owner_of account (called w) ≡ (ok result, after)
      → IsKnown w result
  owner_of-IsKnown w after account result held h =
      let one = bind-ok (Users.find_by_id account.user_id) if_found (called w) result after h in
      let two =
        bind-ok (from_option one.value user_not_found) (λ owner. pure (known owner account))
          one.between result after one.rest in
      let (found, _) = find_by_id-ok account.user_id (called w) one.between one.value one.first in
      let (there, _) =
        from_option-ok one.value user_not_found one.between two.between two.value two.first in
      let is = ok_injective (known two.value account) result two.between after two.rest in
      record {
        held = held ∙ ap (λ (r : LinkResult). some r.account) is;
        owner =
            ap (λ (r : LinkResult). find_user r.account.user_id w.users) (sym is)
            ∙ sym found
            ∙ there
            ∙ ap (λ (r : LinkResult). some r.user) is;
        nobody_new = ap (λ (r : LinkResult). r.user_created) (sym is);
      }
    where
      if_found : Option User → Auth LinkResult
      if_found found = from_option found user_not_found >>= λ owner. pure (known owner account)

  attach-ok :
      (user : User) (w after : World) (result : LinkResult)
      → attach hooks user identity w ≡ (ok result, after)
      → (account : Account) × (attached user account ≡ result) × StandsFor identity user.id account
  unfolding attach
  attach-ok user w after result h =
      let one =
        bind-ok (run_before_link hooks.before_account_link user identity.provider_id) (λ _. bound) w
          result after h in
      let two = bind-ok (link_existing user.id identity) told one.between result after one.rest in
      (
        two.value,
        ok_injective (attached user two.value) result _ after two.rest,
        link_existing-StandsFor user.id identity one.between two.between two.value two.first,
      )
    where
      told : Account → Auth LinkResult
      told account = linked user.id account >> pure (attached user account)

      bound : Auth LinkResult
      bound = link_existing user.id identity >>= told

  register-StandsFor :
      (email : Text) (w after : World) (user : User) (account : Account)
      → register lower_other hooks trusted_providers identity email w ≡ (ok (user, account), after)
      → StandsFor identity user.id account
  unfolding register
  register-StandsFor email w after user account h =
      let (v, ran, _) = transaction-ok registration w after (user, account) h in
      let one =
        bind-ok (provision lower_other hooks candidate) with_user ready (user, account) v ran in
      let two =
        bind-ok (insert_account one.value.id identity) (λ a. pure (one.value, a)) one.between
          (user, account) v one.rest in
      let is = ok_injective (one.value, two.value) (user, account) two.between v two.rest in
      subst (λ (p : User × Account). StandsFor identity p.0.id p.1) is
        (insert_account-StandsFor one.value.id identity one.between two.between two.value two.first)
    where
      candidate : User
      candidate = record {
        id = w.ids w.minted;
        email = email;
        email_verified = identity.email_verified;
      }

      ready : World
      ready = record w { calls = suc w.calls; minted = suc w.minted; reads = suc (suc w.reads) }

      with_user : User → Auth (User × Account)
      with_user made = insert_account made.id identity >>= λ a. pure (made, a)

      registration : Auth (User × Account)
      registration = do
        id ← generate_id
        created ← now
        updated ← now
        made ←
            provision lower_other hooks
              (record { id = id; email = email; email_verified = identity.email_verified })
        with_user made

  register_and_tell-ok :
      (email : Text) (w after : World) (result : LinkResult)
      → register_and_tell lower_other hooks trusted_providers identity email w ≡ (ok result, after)
      → (result.user_created ≡ true) × StandsFor identity result.user.id result.account
  unfolding register_and_tell
  register_and_tell-ok email w after result h =
      let one =
        bind-ok (register lower_other hooks trusted_providers identity email) told w result after
          h in
      let is = ok_injective (made one.value) result _ after one.rest in
      (
        ap (λ (r : LinkResult). r.user_created) (sym is),
        subst (λ (r : LinkResult). StandsFor identity r.user.id r.account) is
            (register-StandsFor email w one.between one.value.0 one.value.1 one.first),
      )
    where
      made : User × Account → LinkResult
      made (user, account) = record {
        user = user;
        account = account;
        user_created = true;
        account_created = true;
      }

      told : User × Account → Auth LinkResult
      told (user, account) = do
        publish_safely (
            user_created user.id user.email user.email_verified
              (method_of (oauth identity.provider_id)))
        linked user.id account
        pure (made (user, account))

  vouched_for :
      (user : User)
      → is_allowed lower_other hooks trusted_providers user identity ≡ true
      → (identity.email_verified ≡ true)
        × ((any (λ p. p == identity.provider_id) trusted_providers ≡ true)
            ⊎ (user.email_verified ≡ true))
  vouched_for user allowed = elim (Bool-cases identity.email_verified) [
    | inr unverified ↦ absurd (cc (rw unverified at allowed))
    | inl verified ↦ elim (Bool-cases (any (λ p. p == identity.provider_id) trusted_providers)) [
      | inl trusted ↦ (verified, inl trusted)
      | inr other ↦ (verified, inr (rw (verified, other) at allowed))
    ]
  ]

  by_address-Resolved :
      (w v after : World) (found : Option User) (result : LinkResult)
      → account_of identity w ≡ none
      → find_email (normalize_email lower_other identity.email) w.users ≡ found
      → by_address lower_other hooks trusted_providers identity
          (normalize_email lower_other identity.email)
          found
          v
        ≡ (ok result, after)
      → Resolved w result
  by_address-Resolved w v after none result unknown free h =
      let (new, account) =
        register_and_tell-ok (normalize_email lower_other identity.email) v after result h in
      inr (inr (record { unknown = unknown; free = free; account = account; somebody_new = new }))
  by_address-Resolved w v after (some user) result unknown holder h =
      elim (Bool-cases (is_allowed lower_other hooks trusted_providers user identity)) [
        | inr refused ↦ absurd (err-ne-ok (rw refused at h))
        | inl allowed ↦
            let (account, is, stands) = attach-ok user v after result (rw allowed at h) in
            let (verified, vouched) = vouched_for user allowed in
            inr (
              inl (
                subst (IsTakenFor w) is (record {
                  unknown = unknown;
                  holder = holder;
                  verified = verified;
                  vouched = vouched;
                  account = stands;
                  nobody_new = refl;
                })))
      ]

  by_account-Resolved :
      (w after : World) (found : Option Account) (result : LinkResult)
      → account_of identity w ≡ found
      → by_account lower_other hooks trusted_providers identity found (called w)
        ≡ (ok result, after)
      → Resolved w result
  by_account-Resolved w after (some account) result held h =
      inl (owner_of-IsKnown w after account result held h)
  by_account-Resolved w after none result unknown h =
      let one =
        bind-ok (Users.find_by_email (normalize_email lower_other identity.email))
          (by_address lower_other hooks trusted_providers identity
            (normalize_email lower_other identity.email))
          (called w) result after h in
      let (found, _) =
        find_by_email-ok (normalize_email lower_other identity.email) (called w) one.between
          one.value one.first in
      by_address-Resolved w one.between after one.value result unknown (sym found) one.rest

  attempt-Resolved :
      (w after : World) (result : LinkResult)
      → attempt_link_oauth lower_other hooks trusted_providers identity w ≡ (ok result, after)
      → Resolved w result
  unfolding attempt_link_oauth Store.find_by_issuer_account_id
  attempt-Resolved w after result h =
      let one =
        bind-ok (Store.find_by_issuer_account_id identity.issuer identity.account_id)
          (by_account lower_other hooks trusted_providers identity) w result after h in
      elim (Bool-cases (w.fault w.calls)) [
        | inl e ↦ absurd (err-ne-ok (rw e at one.first))
        | inr e ↦ by_account-Resolved w after (account_of identity w) result refl (rw e at h)
      ]

  -- A provider's identity that is resolved is that of a known account and its owner; or, where
  -- there is no such account, is taken for the user who holds its address, which the provider
  -- has verified and which the user has verified too unless the provider is trusted; or else,
  -- where nobody holds the address, is a new user's; and an account that is added stands for the
  -- identity at that user. This holds of the tables as they were, or as an attempt that lost a
  -- race has left them.
  pub link_oauth-Resolved :
      (w after : World) (result : LinkResult)
      → link_oauth lower_other hooks trusted_providers identity w ≡ (ok result, after)
      → Resolved w result
        ⊎ Resolved (attempt_link_oauth lower_other hooks trusted_providers identity w).1 result
  unfolding link_oauth
  link_oauth-Resolved w after result h = resolved (attempt w) refl h
    where
      attempt : Auth LinkResult
      attempt = attempt_link_oauth lower_other hooks trusted_providers identity

      resolved :
          (r : Result LinkResult × World)
          → attempt w ≡ r
          → once_more lower_other hooks trusted_providers attempt r ≡ (ok result, after)
          → Resolved w result ⊎ Resolved (attempt w).1 result
      resolved (ok a, v) is q = inl (attempt-Resolved w after result (is ∙ q))
      resolved (err e, v) is q = elim (Bool-cases (is_unique_violation e)) [
        | inl lost ↦ inr (
            subst (λ x. Resolved x result) (ap (λ (r : Result LinkResult × World). r.1) (sym is))
              (attempt-Resolved v after result (rw lost at q)))
        | inr other ↦ absurd (err-ne-ok (rw other at q))
      ]
