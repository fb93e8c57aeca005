-- ===== src/Passwords/Resets.antt =====
-- What a reset of a password leaves.
use effect_auth.Prelude.{
  ℕ, suc, ◌≡◌, refl, ap, sym, subst, ◌∙◌, inl, inr, true, false, Option, none, some, List, Text,
  text_eq, Bool-cases, All, length, ltb,
}
use effect_auth.Runtime.{
  World, User, Account, Verification, Auth, Result, ok, err-ne-ok, pure, from_option,
  publish_safely, invalid_token, password_hash_failed, session_revoked, everything,
  password_changed, ◌>>=◌, ◌>>◌,
}
use effect_auth.Runtime.Keeps.{Keeps, bind-Keeps, from_option-Keeps}
use effect_auth.Runtime.Steps.{bind-ok, world_of, some_injective, from_option-ok}
use effect_auth.Sql.{Dialect}
use effect_auth.Verifications
use effect_auth.Verifications.{
  Base64, SubjectToken, Claimed, identifier_of, decode_subject_token, claim, user_subject_purposes,
  retire_user_subject_tokens,
}
use effect_auth.Verifications.Store.{has_identifier}
use effect_auth.Verifications.Claims.{IsClaimed, claim_sound}
use effect_auth.Users
use effect_auth.Users.{transaction}
use effect_auth.Users.Transactions.{called, transaction-ok}
use effect_auth.Accounts
use effect_auth.Accounts.Store.{update_password_hash}
use effect_auth.Passwords.{
  PasswordHasher, PasswordConfig, password_reset_purpose, check_policy, hash_password,
  replace_password, reset_password, credential_account_for, verify_hash, verify_password,
}
use effect_auth.Passwords.Stored.{IsKeyed, stored_hash}
use effect_auth.Passwords.Replaced.{IsReplaced, replace_password-IsReplaced, IsReplaced-events}

check_policy-ok :
    (settings : PasswordConfig) (password : Text) (w after : World)
    → check_policy settings password w ≡ (ok tt, after)
    → (ltb (length password) settings.min_password_length ≡ false)
      × (ltb settings.max_password_length (length password) ≡ false)
      × (w ≡ after)
unfolding check_policy
check_policy-ok settings password w after h =
    elim (Bool-cases (ltb (length password) settings.min_password_length)) [
      | inl short ↦ absurd (err-ne-ok (rw short at h))
      | inr enough ↦ elim (Bool-cases (ltb settings.max_password_length (length password))) [
        | inl long ↦ absurd (err-ne-ok (rw (enough, long) at h))
        | inr fits ↦ (enough, fits, world_of (ok tt) (ok tt) w after (rw (enough, fits) at h))
      ]
    ]

module _ (accounts : List Account) where
  abbrev HasAccounts : World → Type 0
  HasAccounts w = w.accounts ≡ accounts

  consume-HasAccounts :
      (d : Dialect) (i h : Text) → Keeps HasAccounts (Verifications.Store.consume d i h)
  unfolding Verifications.Store.consume Verifications.Store.consume_now
      Verifications.Store.consume_row
  consume-HasAccounts d i h w k = elim (Bool-cases (w.fault w.calls)) [
    | inl e ↦ rw e k
    | inr e ↦ rw e k
  ]

  find_by_id-HasAccounts : (id : Text) → Keeps HasAccounts (Users.find_by_id id)
  unfolding Users.find_by_id
  find_by_id-HasAccounts id w k = elim (Bool-cases (w.fault w.calls)) [
    | inl e ↦ rw e k
    | inr e ↦ rw e k
  ]

  claim-HasAccounts :
      (base64 : Base64) (hash_token : Text → Text) (d : Dialect) (token : Text)
      → Keeps HasAccounts (claim base64 hash_token d password_reset_purpose token)
  unfolding claim
  claim-HasAccounts base64 hash_token d token =
      bind-Keeps HasAccounts (from_option (decode_subject_token base64 token) invalid_token) taken
        (from_option-Keeps HasAccounts (decode_subject_token base64 token) invalid_token)
        (λ parts.
          bind-Keeps HasAccounts
            (Verifications.Store.consume d (named parts) (hash_token parts.secret)) (found parts)
            (consume-HasAccounts d (named parts) (hash_token parts.secret))
            (λ o.
              bind-Keeps HasAccounts (from_option o invalid_token) (read parts)
                (from_option-Keeps HasAccounts o invalid_token)
                (λ row.
                  bind-Keeps HasAccounts (payload_of row) (claimed parts row)
                    (from_option-Keeps HasAccounts
                      (password_reset_purpose.decode_payload row.payload) invalid_token)
                    (λ payload w k. k))))
    where
      named : SubjectToken → Text
      named parts = identifier_of password_reset_purpose.name parts.subject

      payload_of : Verification → Auth (Unit {0})
      payload_of row = from_option (password_reset_purpose.decode_payload row.payload) invalid_token

      claimed : SubjectToken → Verification → Unit {0} → Auth (Claimed (Unit {0}))
      claimed parts row payload = pure (record {
        subject = parts.subject;
        payload = payload;
        identifier = named parts;
        verification = row;
      })

      read : SubjectToken → Verification → Auth (Claimed (Unit {0}))
      read parts row = payload_of row >>= claimed parts row

      found : SubjectToken → Option Verification → Auth (Claimed (Unit {0}))
      found parts o = from_option o invalid_token >>= read parts

      taken : SubjectToken → Auth (Claimed (Unit {0}))
      taken parts =
          Verifications.Store.consume d (named parts) (hash_token parts.secret) >>= found parts

after_Keeps :
    {A : Type 0} (rows : List Account) (m : Auth A) (w after : World) (a : A)
    → Keeps (HasAccounts rows) m
    → w.accounts ≡ rows
    → m w ≡ (ok a, after)
    → after.accounts ≡ rows
after_Keeps {A} rows m w after a keeps h ran =
    subst (HasAccounts rows) (ap (λ (r : Result A × World). r.1) ran) (keeps w h)

module _ (lower_other : ℕ → Text) (hasher : PasswordHasher) (dummy_hash : Text)
    (settings : PasswordConfig) (base64 : Base64) (hash_token : Text → Text)
    (dialect : Dialect) where
  -- The password fits the policy, the token was claimed, and what the hasher made of the
  -- password is the user's from there on.
  pub record IsReset (token new_password : Text) (before after : World) : Type 0 where
    pub enough : ltb (length new_password) settings.min_password_length ≡ false
    pub fits : ltb settings.max_password_length (length new_password) ≡ false
    pub claimed : Claimed (Unit {0})
    pub taken : World
    pub is_claimed :
        claim base64 hash_token dialect password_reset_purpose token before ≡ (ok claimed, taken)
    pub used : IsClaimed base64 hash_token dialect password_reset_purpose token before claimed taken
    pub salt : Text
    pub hash : Text
    pub hashed : hasher.hash new_password salt ≡ some hash
    pub replaced : IsReplaced claimed.subject hash after

  abbrev announced : Text → ℕ → Auth (Unit {0})
  announced user_id revoked = do
    publish_safely (session_revoked user_id none everything revoked)
    publish_safely (password_changed user_id true)

  abbrev hashed_with : Text → Text → Auth (Unit {0})
  hashed_with user_id hash = transaction (replace_password user_id hash) >>= announced user_id

  abbrev known_user : Text → Text → Auth (Unit {0})
  known_user new_password user_id = hash_password hasher new_password >>= hashed_with user_id

  abbrev found_user : Text → Text → Option User → Auth (Unit {0})
  found_user new_password user_id found =
      from_option found invalid_token >>= λ _. known_user new_password user_id

  abbrev with_claim : Text → Claimed (Unit {0}) → Auth (Unit {0})
  with_claim new_password claimed =
      Users.find_by_id claimed.subject >>= found_user new_password claimed.subject

  known_user-IsReplaced :
      (new_password user_id : Text) (w after : World)
      → All IsKeyed w.accounts
      → known_user new_password user_id w ≡ (ok tt, after)
      → (salt : Text) × (hash : Text) × (hasher.hash new_password salt ≡ some hash)
        × IsReplaced user_id hash after
  unfolding hash_password
  known_user-IsReplaced new_password user_id w after keyed h =
      let one = bind-ok (hash_password hasher new_password) (hashed_with user_id) w tt after h in
      let (hashed, salted) =
        from_option-ok _ password_hash_failed (record w { drawn = suc w.drawn }) one.between
          one.value one.first in
      let two =
        bind-ok (transaction (replace_password user_id one.value)) (announced user_id) one.between
          tt after one.rest in
      let (v, ran, committed) =
        transaction-ok (replace_password user_id one.value) one.between two.between two.value
          two.first in
      let replaced =
        replace_password-IsReplaced user_id one.value (called one.between) v two.value
          (subst (λ (l : List Account). All IsKeyed l) (ap (λ (x : World). x.accounts) salted)
            keyed)
          ran in
      (
        w.tokens w.drawn,
        one.value,
        hashed,
        IsReplaced-events user_id one.value two.value v after two.between committed replaced
            (world_of (ok tt) (ok tt) _ after two.rest),
      )

  -- A reset that succeeds was asked with a password that fits the policy, has used up the
  -- unexpired row of its token, and leaves the user whom the token names with the hash of that
  -- password, with no session, and with no outstanding link of the core that has the user for
  -- its subject: no reset, no hop of a change of address, no deletion; provided that the
  -- credential accounts stand under the ids of their users.
  pub reset_password-IsReset :
      (token new_password : Text) (before after : World)
      → All IsKeyed before.accounts
      → reset_password lower_other hasher dummy_hash settings base64 hash_token dialect token
          new_password before
        ≡ (ok tt, after)
      → IsReset token new_password before after
  unfolding reset_password
  reset_password-IsReset token new_password before after keyed h =
      let one = bind-ok (check_policy settings new_password) (λ _. with_token) before tt after h in
      let (enough, fits, began) =
        check_policy-ok settings new_password before one.between one.first in
      let two =
        bind-ok (claim base64 hash_token dialect password_reset_purpose token)
          (with_claim new_password) one.between tt after one.rest in
      let three =
        bind-ok (Users.find_by_id two.value.subject) (found_user new_password two.value.subject)
          two.between tt after two.rest in
      let four =
        bind-ok (from_option three.value invalid_token)
          (λ _. known_user new_password two.value.subject) three.between tt after three.rest in
      let (_, still) =
        from_option-ok three.value invalid_token three.between four.between four.value four.first in
      let had =
        after_Keeps before.accounts (claim base64 hash_token dialect password_reset_purpose token)
          one.between two.between two.value
          (claim-HasAccounts before.accounts base64 hash_token dialect token)
          (ap (λ (x : World). x.accounts) (sym began)) two.first in
      let has =
        after_Keeps before.accounts (Users.find_by_id two.value.subject) two.between three.between
          three.value (find_by_id-HasAccounts before.accounts two.value.subject) had three.first in
      let (salt, hash, hashed, replaced) =
        known_user-IsReplaced new_password two.value.subject four.between after
          (subst (λ (l : List Account). All IsKeyed l)
            (sym has ∙ ap (λ (x : World). x.accounts) still) keyed)
          four.rest in
      let claims =
        ap (claim base64 hash_token dialect password_reset_purpose token) began ∙ two.first in
      record {
        enough = enough;
        fits = fits;
        claimed = two.value;
        taken = two.between;
        is_claimed = claims;
        used =
            claim_sound base64 hash_token dialect password_reset_purpose token before two.between
              two.value claims;
        salt = salt;
        hash = hash;
        hashed = hashed;
        replaced = replaced;
      }
    where
      with_token : Auth (Unit {0})
      with_token =
          claim base64 hash_token dialect password_reset_purpose token >>= with_claim new_password

  -- After a reset that succeeds, the new password verifies for the user whom the token names;
  -- provided that the hasher verifies what it has hashed, that the credential accounts stand
  -- under the ids of their users, and that the store answers.
  pub reset_password-verify_password :
      (token new_password : Text) (parts : SubjectToken) (before after : World)
      → ((salt hash : Text)
          → hasher.hash new_password salt ≡ some hash
          → hasher.verify new_password hash ≡ some true)
      → All IsKeyed before.accounts
      → decode_subject_token base64 token ≡ some parts
      → reset_password lower_other hasher dummy_hash settings base64 hash_token dialect token
          new_password before
        ≡ (ok tt, after)
      → after.fault after.calls ≡ false
      → verify_password lower_other hasher dummy_hash settings base64 hash_token dialect
          parts.subject new_password after
        ≡ (ok true, called after)
  unfolding verify_password credential_account_for verify_hash
      Accounts.Store.find_by_issuer_account_id
  reset_password-verify_password token new_password parts before after law keyed read h up =
      let r = reset_password-IsReset token new_password before after keyed h in
      let c =
        claim_sound base64 hash_token dialect password_reset_purpose token before r.taken r.claimed
          r.is_claimed in
      let named =
        c.subject ∙ ap (λ (x : SubjectToken). x.subject) (some_injective (sym c.read ∙ read)) in
      let stored = subst (λ u. stored_hash u after ≡ some r.hash) named r.replaced.stored in
      rw (up, stored, law r.salt r.hash r.hashed) refl
