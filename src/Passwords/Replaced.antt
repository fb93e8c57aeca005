-- ===== src/Passwords/Replaced.antt =====
-- What the transaction of a reset writes.
use effect_auth.Prelude.{
  ℕ, suc, ◌≡◌, ap, sym, subst, ◌∙◌, inl, inr, true, false, Option, none, some, List, [], ◌∷◌, ◌++◌,
  Memᴰ, Text, text_eq, text_eq_iff, Bool-cases, All, not, ◌==◌, codes, arith, memᴰ_of_filter, ◌≢◌,
}
use effect_auth.Runtime.{
  World, Account, Session, Verification, Auth, ok, err-ne-ok, pure, session_revoked, everything,
  password_changed, ◌>>◌,
}
use effect_auth.Runtime.Steps.{bind-ok, world_of}
use effect_auth.Sql.{delete_where}
use effect_auth.Sessions
use effect_auth.Verifications.{identifier_of, retire_user_subject_tokens}
use effect_auth.Verifications.Retired.{retire_user_subject_tokens-Retired}
use effect_auth.Users
use effect_auth.Users.{transaction}
use effect_auth.Users.Transactions.{called}
use effect_auth.Accounts.Store.{update_password_hash}
use effect_auth.Passwords.{create_credential_account, create_unless, replace_password}
use effect_auth.Passwords.Stored.{
  IsKeyed, stored_hash, update_password_hash-stored, create_credential_account-stored,
}

-- The purposes of the core whose subject is the user: a reset, the two hops of a change of
-- address and a deletion.
abbrev pub link_purposes : List Text
link_purposes =
    codes "password-reset"
    ∷ codes "change-email-confirm"
    ∷ codes "change-email-verify"
    ∷ codes "delete-account"
    ∷ []

-- The user has the hash, no session, and no row of those purposes.
pub record IsReplaced (user_id hash : Text) (after : World) : Type 0 where
  pub stored : stored_hash user_id after ≡ some hash
  pub ended : (row : Session) → Memᴰ row after.sessions → row.user_id ≢ user_id
  pub retired :
      (name : Text) (row : Verification)
      → Memᴰ name link_purposes
      → Memᴰ row after.verifications
      → row.identifier ≢ identifier_of name user_id

create_unless-stored :
    (user_id hash : Text) (w between after : World) (found : Option Account)
    → All IsKeyed w.accounts
    → update_password_hash user_id hash w ≡ (ok found, between)
    → create_unless user_id hash found between ≡ (ok tt, after)
    → stored_hash user_id after ≡ some hash
create_unless-stored user_id hash w between after (some row) keyed written h =
    ap (λ (v : World). stored_hash user_id v) (sym (world_of (ok tt) (ok tt) between after h))
    ∙ update_password_hash-stored user_id hash w between row keyed written
create_unless-stored user_id hash w between after none keyed written h =
    let one =
      bind-ok (Users.lock_user_row user_id) (λ _. create_credential_account user_id hash >> pure tt)
        between tt after h in
    let two =
      bind-ok (create_credential_account user_id hash) (λ _. pure tt) one.between tt after
        one.rest in
    ap (λ (v : World). stored_hash user_id v)
      (sym (world_of (ok tt) (ok tt) two.between after two.rest))
    ∙ create_credential_account-stored user_id hash two.value one.between two.between two.first

delete_by_user_id-ok :
    (user_id : Text) (w after : World) (n : ℕ)
    → Sessions.Store.delete_by_user_id user_id w ≡ (ok n, after)
    → after ≡ record w {
      calls = suc w.calls;
      sessions = delete_where (Sessions.Store.is_of user_id) w.sessions;
    }
unfolding Sessions.Store.delete_by_user_id Sessions.Store.delete_rows
delete_by_user_id-ok user_id w after n h = elim (Bool-cases (w.fault w.calls)) [
  | inl e ↦ absurd (err-ne-ok (rw e at h))
  | inr e ↦ sym (world_of _ (ok n) _ after (rw e at h))
]

apart : (a b : Text) → (a == b) ≡ false → a ≢ b
apart a b differ same = absurd (let q = (text_eq_iff a b).1 same in cc)

-- No session of the user is left where they have been deleted.
none_left :
    (user_id : Text) (rows : List Session) (row : Session)
    → Memᴰ row (delete_where (Sessions.Store.is_of user_id) rows)
    → row.user_id ≢ user_id
none_left user_id rows row m =
    let (_, kept) = memᴰ_of_filter (λ r. not (Sessions.Store.is_of user_id r)) rows row m in
    apart row.user_id user_id (ground arith)

pub replace_password-IsReplaced :
    (user_id hash : Text) (w after : World) (n : ℕ)
    → All IsKeyed w.accounts
    → replace_password user_id hash w ≡ (ok n, after)
    → IsReplaced user_id hash after
unfolding replace_password
replace_password-IsReplaced user_id hash w after n keyed h =
    let one = bind-ok (update_password_hash user_id hash) created w n after h in
    let two =
      bind-ok (create_unless user_id hash one.value) (λ _. retired) one.between n after one.rest in
    let three =
      bind-ok (retire_user_subject_tokens user_id) (λ _. revoked) two.between n after two.rest in
    let ended = delete_by_user_id-ok user_id three.between after n three.rest in
    let left = retire_user_subject_tokens-Retired user_id two.between three.between three.first in
    record {
      stored =
          ap (λ (v : World). stored_hash user_id v) ended
          ∙ ap (λ (l : List Account). stored_hash user_id (record w { accounts = l })) left.accounts
          ∙ create_unless-stored user_id hash w one.between two.between one.value keyed one.first
              two.first;
      ended = λ row m.
          none_left user_id three.between.sessions row
            (subst (λ (v : World). Memᴰ row v.sessions) ended m);
      retired = λ name row m there.
          apart row.identifier (identifier_of name user_id)
            (left.gone name row m (subst (λ (v : World). Memᴰ row v.verifications) ended there));
    }
  where
    revoked : Auth ℕ
    revoked = Sessions.Store.delete_by_user_id user_id

    retired : Auth ℕ
    retired = retire_user_subject_tokens user_id >> revoked

    created : Option Account → Auth ℕ
    created updated = create_unless user_id hash updated >> retired

-- The end of a transaction and the events after it change none of the tables.
pub IsReplaced-events :
    (user_id hash : Text) (n : ℕ) (v after between : World)
    → between ≡ called v
    → IsReplaced user_id hash v
    → record between {
      events =
          (between.events ++ session_revoked user_id none everything n ∷ [])
          ++ password_changed user_id true ∷ [];
    }
      ≡ after
    → IsReplaced user_id hash after
IsReplaced-events user_id hash n v after between committed replaced ended =
    subst (IsReplaced user_id hash) ended (
      subst
        (λ (b : World). IsReplaced user_id hash (record b {
          events =
              (b.events ++ session_revoked user_id none everything n ∷ [])
              ++ password_changed user_id true ∷ [];
        }))
        (sym committed)
        (record {
          stored = replaced.stored;
          ended = λ row. replaced.ended row;
          retired = λ name row. replaced.retired name row;
        }))
