-- ===== src/Accounts/Unlink.antt =====
-- What the removal of an account leaves.
use effect_auth.Prelude.{
  ℕ, suc, ◌≢◌, ◌&&◌, ◌==◌, Option-cases, ◌+◌, ◌<◌, ◌≡◌, refl, ap, sym, subst, ◌∙◌, ◌⊎◌, inl, inr,
  Bool, true, false, not, some, List, [], ◌∷◌, Memᴰ, Text, text_eq, text_eq_iff, arith, ltb, length,
  filter, head?, Bool-cases, memᴰ_of_filter, memᴰ-filter, if◌then◌else◌,
}
use effect_auth.Runtime.{
  World, Account, Auth, Result, ok, err, not_found, cannot_unlink_last_account, fail, resume,
  from_option, err-ne-ok, publish_safely, account_unlinked, ◌>>=◌,
}
use effect_auth.Runtime.Steps.{bind-ok, ok_injective, world_of, from_option-ok, persist-cases}
use effect_auth.Sql.{delete_where}
use effect_auth.Users.{transaction}
use effect_auth.Users.Transactions.{called, transaction-ok, transaction-err}
use effect_auth.Accounts.Store
use effect_auth.Accounts.Store.{
  credential_issuer, is_owned, is_of, stands_before, insert_ordered, oldest_first, held_by,
}
use effect_auth.Accounts.{is_target, is_other_way, can_sign_in, require_deleted, remove, unlink}

memᴰ_of_insert_ordered :
    (a : Account) (rows : List Account) (x : Account)
    → Memᴰ x (insert_ordered a rows)
    → Memᴰ x (a ∷ rows)
unfolding insert_ordered
memᴰ_of_insert_ordered a [] x m = m
memᴰ_of_insert_ordered a (b ∷ rows) x m = elim (Bool-cases (stands_before a b)) [
  | inl e ↦ rw e at m
  | inr e ↦ later (memᴰ_of_insert_ordered a rows x) (rw e at m)
]
  where
    swap : Memᴰ x (a ∷ rows) → Memᴰ x (a ∷ b ∷ rows)
    swap (Memᴰ.head e) = Memᴰ.head e
    swap (Memᴰ.tail t) = Memᴰ.tail (Memᴰ.tail t)

    later :
        (Memᴰ x (insert_ordered a rows) → Memᴰ x (a ∷ rows))
        → Memᴰ x (b ∷ insert_ordered a rows)
        → Memᴰ x (a ∷ b ∷ rows)
    later ih (Memᴰ.head e) = Memᴰ.tail (Memᴰ.head e)
    later ih (Memᴰ.tail t) = swap (ih t)

memᴰ_of_oldest_first :
    (rows : List Account) (x : Account) → Memᴰ x (oldest_first rows) → Memᴰ x rows
unfolding oldest_first
memᴰ_of_oldest_first [] x m = m
memᴰ_of_oldest_first (a ∷ rows) x m =
    rest (memᴰ_of_oldest_first rows x) (memᴰ_of_insert_ordered a (oldest_first rows) x m)
  where
    rest :
        (Memᴰ x (oldest_first rows) → Memᴰ x rows)
        → Memᴰ x (a ∷ oldest_first rows)
        → Memᴰ x (a ∷ rows)
    rest f (Memᴰ.head e) = Memᴰ.head e
    rest f (Memᴰ.tail t) = Memᴰ.tail (f t)

-- A row that is held is a row of the table, and the user's.
memᴰ_of_held :
    (user_id : Text) (w : World) (x : Account)
    → Memᴰ x (held_by user_id w)
    → Memᴰ x w.accounts × (x.user_id ≡ user_id)
memᴰ_of_held user_id w x m =
    let (m', owned) =
      memᴰ_of_filter (is_of user_id) w.accounts x
        (memᴰ_of_oldest_first (filter (is_of user_id) w.accounts) x m) in
    (m', (text_eq_iff x.user_id user_id).0 owned)

one_of :
    (p : Account → Bool) (rows : List Account) (n : ℕ)
    → ltb 0 (length (filter p rows) + n) ≡ true
    → ((x : Account) × Memᴰ x rows × (p x ≡ true)) ⊎ (0 < n)
one_of p [] n h = inr (ground arith)
one_of p (x ∷ rows) n h = elim (Bool-cases (p x)) [
  | inl e ↦ inl (x, Memᴰ.head refl, e)
  | inr e ↦ elim (one_of p rows n (rw e at h)) [
    | inl (y, m, q) ↦ inl (y, Memᴰ.tail m, q)
    | inr more ↦ inr more
  ]
]

head_of_filter :
    (p : Account → Bool) (rows : List Account) (x : Account)
    → head? (filter p rows) ≡ some x
    → Memᴰ x rows × (p x ≡ true)
head_of_filter p rows x h = memᴰ_of_filter p rows x (head_mem (filter p rows) h)
  where
    head_mem : (l : List Account) → head? l ≡ some x → Memᴰ x l
    head_mem [] h = absurd (cc)
    head_mem (y ∷ l) h = Memᴰ.head (cc)

-- An account of a provider, or a credential that has a password.
abbrev pub SignsIn : Account → Type 0
SignsIn account =
    (account.issuer ≢ credential_issuer) ⊎ ((hash : Text) × (account.password_hash ≡ some hash))

can_sign_in-SignsIn : (account : Account) → can_sign_in account ≡ true → SignsIn account
can_sign_in-SignsIn account h = elim (Option-cases account.password_hash) [
  | inr set ↦ inr set
  | inl unset ↦ inl (λ e.
      absurd (
        let q = rw (unset, e, (text_eq_iff credential_issuer credential_issuer).1 refl) at h in cc))
]

module _ (sign_in_factors : Text → Auth ℕ) (account_id user_id : Text) where
  -- Another way in, in the accounts that are left or among the authenticators as they are
  -- counted in a world.
  abbrev pub WayIn : World → List Account → Type 0
  WayIn counted rows =
      ((other : Account) × Memᴰ other rows × (other.user_id ≡ user_id) × SignsIn other)
      ⊎ ((n : ℕ) × (v : World) × (sign_in_factors user_id counted ≡ (ok n, v)) × (0 < n))

  -- What a removal did: just the account went, and there is another way in.
  pub record IsUnlinked (counted before : World) (target : Account) (after : World) : Type 0 where
    pub held : Memᴰ target before.accounts
    pub owner : target.user_id ≡ user_id
    pub id : target.id ≡ account_id
    pub gone :
        after.accounts
        ≡ delete_where (λ row. row.id == account_id && row.user_id == user_id) before.accounts
    pub way_in : WayIn counted after.accounts

  list-ok :
      (w after : World) (held : List Account)
      → Store.list_by_user_id_for_update user_id w ≡ (ok held, after)
      → (held ≡ held_by user_id w) × (after ≡ called w)
  unfolding Store.list_by_user_id_for_update
  list-ok w after held =
      persist-cases (λ r. r ≡ (ok held, after) → (held ≡ held_by user_id w) × (after ≡ called w)) _
        (λ v. (ok (held_by user_id v), v)) w (λ h. absurd (err-ne-ok h))
        (λ h. (sym (ok_injective _ held _ after h), sym (world_of _ (ok held) _ after h)))

  delete-ok :
      (w after : World) (done : Bool)
      → Store.delete_by_id account_id user_id w ≡ (ok done, after)
      → after.accounts ≡ delete_where (is_owned account_id user_id) w.accounts
  unfolding Store.delete_by_id
  delete-ok w after done h = elim (Bool-cases (w.fault w.calls)) [
    | inl e ↦ absurd (err-ne-ok (rw e at h))
    | inr e ↦ sym (ap (λ (v : World). v.accounts) (world_of _ (ok done) _ after (rw e at h)))
  ]

  require_deleted-ok :
      (target t : Account) (done : Bool) (w after : World)
      → require_deleted target done w ≡ (ok t, after)
      → (target ≡ t) × (w ≡ after)
  require_deleted-ok target t true w after h =
      (ok_injective target t w after h, world_of (ok target) (ok t) w after h)
  require_deleted-ok target t false w after h = absurd (err-ne-ok h)

  -- A row that is not the target stays.
  other_stays :
      (other : Account) (rows : List Account)
      → Memᴰ other rows
      → is_other_way account_id other ≡ true
      → Memᴰ other (delete_where (is_owned account_id user_id) rows) × SignsIn other
  other_stays other rows m h = (
    memᴰ-filter (λ r. not (is_owned account_id user_id r)) rows other m (ground arith),
    can_sign_in-SignsIn other (ground arith),
  )

  remove-IsUnlinked :
      (before after : World) (target : Account)
      → ((w : World) → (sign_in_factors user_id w).1.accounts ≡ w.accounts)
      → remove sign_in_factors account_id user_id before ≡ (ok target, after)
      → IsUnlinked (called before) before target after
  unfolding remove
  remove-IsUnlinked before after target leaves h =
      let one =
        bind-ok (Store.list_by_user_id_for_update user_id) with_held before target after h in
      let (held_is, kept) = list-ok before one.between one.value one.first in
      let two =
        bind-ok (from_option (head? (filter (is_target account_id) one.value)) not_found)
          (with_target one.value) one.between target after one.rest in
      let (head_is, same) =
        from_option-ok _ not_found one.between two.between two.value two.first in
      let three =
        bind-ok (sign_in_factors user_id) (deleted one.value two.value) two.between target after
          two.rest in
      let before_delete =
        sym (ap (λ (r : Result ℕ × World). r.1.accounts) three.first)
        ∙ leaves two.between
        ∙ ap (λ (v : World). v.accounts) (sym same)
        ∙ ap (λ (v : World). v.accounts) kept in
      let (m, q) = head_of_filter (is_target account_id) one.value two.value head_is in
      let (stored, owned) =
        memᴰ_of_held user_id before two.value (subst (λ l. Memᴰ two.value l) held_is m) in
      finish one.value two.value three.value three.between held_is
        (ap (sign_in_factors user_id) (sym (sym same ∙ kept)) ∙ three.first) before_delete stored
        owned ((text_eq_iff two.value.id account_id).0 q) three.rest
    where
      deleted : List Account → Account → ℕ → Auth Account
      deleted held target factors =
          if ltb 0 (length (filter (is_other_way account_id) held) + factors)
          then (Store.delete_by_id account_id user_id >>= require_deleted target)
          else fail cannot_unlink_last_account

      with_target : List Account → Account → Auth Account
      with_target held target = sign_in_factors user_id >>= deleted held target

      with_held : List Account → Auth Account
      with_held held =
          from_option (head? (filter (is_target account_id) held)) not_found >>= with_target held

      way :
          (held : List Account) (factors : ℕ) (v : World)
          → held ≡ held_by user_id before
          → sign_in_factors user_id (called before) ≡ (ok factors, v)
          → after.accounts ≡ delete_where (is_owned account_id user_id) before.accounts
          → ltb 0 (length (filter (is_other_way account_id) held) + factors) ≡ true
          → WayIn (called before) after.accounts
      way held factors v held_is counted gone enough =
          elim (one_of (is_other_way account_id) held factors enough) [
            | inr more ↦ inr (factors, v, counted, more)
            | inl (other, m, q) ↦
                let (stored, owned) =
                  memᴰ_of_held user_id before other (subst (λ l. Memᴰ other l) held_is m) in
                let (stays, able) = other_stays other before.accounts stored q in
                inl (other, subst (λ l. Memᴰ other l) (sym gone) stays, owned, able)
          ]

      finish :
          (held : List Account) (t : Account) (factors : ℕ) (v : World)
          → held ≡ held_by user_id before
          → sign_in_factors user_id (called before) ≡ (ok factors, v)
          → v.accounts ≡ before.accounts
          → Memᴰ t before.accounts
          → t.user_id ≡ user_id
          → t.id ≡ account_id
          → deleted held t factors v ≡ (ok target, after)
          → IsUnlinked (called before) before target after
      finish held t factors v held_is counted kept stored owned is ran =
          elim (Bool-cases (ltb 0 (length (filter (is_other_way account_id) held) + factors))) [
            | inr none_left ↦ absurd (err-ne-ok (rw none_left at ran))
            | inl enough ↦
                let last =
                  bind-ok (Store.delete_by_id account_id user_id) (require_deleted t) v target after
                    (rw enough at ran) in
                let (same, ended) =
                  require_deleted-ok t target last.value last.between after last.rest in
                let gone =
                  ap (λ (x : World). x.accounts) (sym ended)
                  ∙ delete-ok v last.between last.value last.first
                  ∙ ap (delete_where (is_owned account_id user_id)) kept in
                record {
                  held = subst (λ x. Memᴰ x before.accounts) same stored;
                  owner = ap (λ (x : Account). x.user_id) (sym same) ∙ owned;
                  id = ap (λ (x : Account). x.id) (sym same) ∙ is;
                  gone = gone;
                  way_in = way held factors v held_is counted gone enough;
                }
          ]

  -- An unlink that fails leaves the accounts alone.
  abbrev pub Unlinked : World → Result (Unit {0}) × World → Type 0
  Unlinked before (ok done, after) =
      (target : Account) × IsUnlinked (record before { calls = suc (suc before.calls) }) before
        target after
  Unlinked before (err e, after) = after.accounts ≡ before.accounts

  -- Where the list of authenticators leaves the accounts alone: an unlink removes just the
  -- account it names, which was the user's, and leaves the user another account to sign in with,
  -- of a provider or with a password, or an authenticator that signs in by itself, as the list
  -- answers within the same transaction, after its first two calls of the store; or it fails,
  -- and every account is still there.
  pub unlink-Unlinked :
      (before : World)
      → ((w : World) → (sign_in_factors user_id w).1.accounts ≡ w.accounts)
      → Unlinked before (unlink sign_in_factors account_id user_id before)
  unfolding unlink
  unlink-Unlinked before leaves =
      outcome (transaction (remove sign_in_factors account_id user_id) before) refl
    where
      told : Account → Auth (Unit {0})
      told removed =
          publish_safely (account_unlinked user_id removed.id removed.provider_id removed.issuer)

      outcome :
          (r : Result Account × World)
          → transaction (remove sign_in_factors account_id user_id) before ≡ r
          → Unlinked before (resume r told)
      outcome (err e, after) h =
          (transaction-err (remove sign_in_factors account_id user_id) before after e h).accounts
      outcome (ok target, after) h =
          let (v, ran, ended) =
            transaction-ok (remove sign_in_factors account_id user_id) before after target h in
          let u = remove-IsUnlinked (called before) v target leaves ran in
          (
            target,
            record {
              held = u.held;
              owner = u.owner;
              id = u.id;
              gone = ap (λ (x : World). x.accounts) ended ∙ u.gone;
              way_in =
                  subst (WayIn (called (called before)))
                    (ap (λ (x : World). x.accounts) (sym ended)) u.way_in;
            },
          )
