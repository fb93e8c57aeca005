-- ===== src/Sessions/Revoke.antt =====
-- What the revocations remove, and what they leave.
use effect_auth.Prelude.{
  ℕ, ◌+◌, ◌≡◌, refl, sym, ap, ◌∙◌, ◌≢◌, ◌⊎◌, ◌↔◌, inl, inr, Bool, true, false, not, List, [], ◌∷◌,
  Memᴰ, Text, text_eq, text_eq_iff, arith, filter, length, Bool-cases, ltb, memᴰ_of_filter,
  memᴰ-filter, if◌then◌else◌,
}
use effect_auth.Runtime.{World, Session, Result, ok, err, not_found}
use effect_auth.Sql.{delete_where}
use effect_auth.Sql.Rows.{filter-none, All-of}
use effect_auth.Sessions.{SessionConfig, VerifiedSession}
use effect_auth.Sessions.Store
use effect_auth.Sessions.Store.{is_owned, is_of, is_other}
use effect_auth.Sessions.Service
use effect_auth.Sessions.Invariant.{IsWellFormed, delete-IsWellFormed}
use effect_auth.Sessions.Verify.{verify_sound, answered}

length-delete_where :
    (p : Session → Bool) (rows : List Session)
    → length (delete_where p rows) + length (filter p rows) ≡ length rows
length-delete_where p [] = omega arith
length-delete_where p (r ∷ rows) = ground (arith, length-delete_where p rows)

memᴰ-delete_where :
    (p : Session → Bool) (rows : List Session) (r : Session)
    → Memᴰ r (delete_where p rows) ↔ (Memᴰ r rows × (p r ≡ false))
memᴰ-delete_where p rows r = (
  (λ m. let (o, q) = memᴰ_of_filter (λ x. not (p x)) rows r m in (o, ground arith)),
  (λ m. memᴰ-filter (λ x. not (p x)) rows r m.0 (ground arith)),
)

is_other_iff :
    (user_id session_id : Text) (r : Session)
    → (is_other user_id session_id r ≡ false) ↔ ((r.user_id ≢ user_id) ⊎ (r.id ≡ session_id))
is_other_iff user_id session_id r =
    ground (arith, text_eq_iff r.user_id user_id, text_eq_iff r.id session_id)

revoke_others_state :
    (user_id session_id : Text) (w w' : World) (count : ℕ)
    → Service.revoke_others user_id session_id w ≡ (ok count, w')
    → (w'.sessions ≡ delete_where (is_other user_id session_id) w.sessions)
      × (count ≡ length (filter (is_other user_id session_id) w.sessions))
unfolding Service.revoke_others Store.delete_by_user_id_except
revoke_others_state user_id session_id w w' count e = ground arith

-- Where it succeeds, revoking the others leaves exactly the rows of other users and the current
-- session's, and the count is that of the rows that went.
pub revoke_others_exact :
    (user_id session_id : Text) (w w' : World) (count : ℕ)
    → Service.revoke_others user_id session_id w ≡ (ok count, w')
    → ((r : Session)
        → Memᴰ r w'.sessions ↔ (Memᴰ r w.sessions × ((r.user_id ≢ user_id) ⊎ (r.id ≡ session_id))))
      × (length w'.sessions + count ≡ length w.sessions)
revoke_others_exact user_id session_id w w' count e =
    let (rows, counted) = revoke_others_state user_id session_id w w' count e in
    rw (rows, counted)
      (
        (λ r.
            let split = memᴰ-delete_where (is_other user_id session_id) w.sessions r in
            (
              (λ m. ((split.0 m).0, (is_other_iff user_id session_id r).0 (split.0 m).1)),
              (λ m. split.1 (m.0, (is_other_iff user_id session_id r).1 m.1)),
            )),
        length-delete_where (is_other user_id session_id) w.sessions,
      )

revoke_all_state :
    (user_id : Text) (w w' : World) (count : ℕ)
    → Service.revoke_all user_id w ≡ (ok count, w')
    → w'.sessions ≡ delete_where (is_of user_id) w.sessions
unfolding Service.revoke_all Store.delete_by_user_id
revoke_all_state user_id w w' count e = ground arith

-- In a well-formed table, no token resolves to a session of a user after all of that user's
-- sessions were revoked.
pub verify-revoke_all :
    (hash_token : Text → Text) (config : SessionConfig) (user_id token : Text) (w w' : World)
    (count : ℕ) (v : VerifiedSession)
    → IsWellFormed w.sessions
    → Service.revoke_all user_id w ≡ (ok count, w')
    → (Service.verify hash_token config token w').0 ≡ ok v
    → v.session.user_id ≢ user_id
verify-revoke_all hash_token config user_id token w w' count v h e k q =
    let rows = revoke_all_state user_id w w' count e in
    let r =
      verify_sound hash_token config token w' v
        (rw rows (delete-IsWellFormed (is_of user_id) w.sessions h)) k in
    let kept =
      (memᴰ-delete_where (is_of user_id) w.sessions r.row).0 (rw rows at r.joined.stored) in
    let owner : r.row.user_id ≡ user_id = owner_of r.row _ _ v.refreshed r.session ∙ q in
    cc ((text_eq_iff r.row.user_id user_id).1 owner, kept.1)
  where
    owner_of :
        (row : Session) (at after : ℕ) (b : Bool)
        → v.session ≡ answered config row b at after
        → row.user_id ≡ v.session.user_id
    owner_of row at after true p = sym (ap (λ (s : Session). s.user_id) p)
    owner_of row at after false p = sym (ap (λ (s : Session). s.user_id) p)

is_owned_iff :
    (session_id user_id : Text) (r : Session)
    → (is_owned session_id user_id r ≡ false) ↔ ((r.id ≢ session_id) ⊎ (r.user_id ≢ user_id))
is_owned_iff session_id user_id r =
    ground (arith, text_eq_iff r.id session_id, text_eq_iff r.user_id user_id)

counted_none :
    (p : Session → Bool) (rows : List Session)
    → (ltb 0 (length (filter p rows)) ≡ false) ↔ ((r : Session) → Memᴰ r rows → p r ≡ false)
counted_none p rows = (
  (λ h r m. elim (Bool-cases (p r)) [
    | inl e ↦ absurd (some_in (filter p rows) (memᴰ-filter p rows r m e) h)
    | inr e ↦ e
  ]),
  (λ h. rw (filter-none p rows (All-of (λ r. p r ≡ false) rows h)) refl),
)
  where
    some_in : {r : Session} (xs : List Session) → Memᴰ r xs → ltb 0 (length xs) ≡ false → ⊥
    some_in [] m k = elim m [ ]
    some_in (x ∷ xs) m k = ground arith

revoke_state :
    (session_id user_id : Text) (w : World)
    → w.fault w.calls ≡ false
    → ((Service.revoke session_id user_id w).1.sessions
        ≡ delete_where (is_owned session_id user_id) w.sessions)
      × ((Service.revoke session_id user_id w).0 ≡ (
          if ltb 0 (length (filter (is_owned session_id user_id) w.sessions))
          then ok tt
          else err not_found))
unfolding Service.revoke Store.delete_by_id
revoke_state session_id user_id w up = ground arith

not_found_iff :
    (b : Bool)
    → (◌≡◌ {A = Result (Unit {0})} (if b then ok tt else err not_found) (err not_found))
      ↔ (b ≡ false)
not_found_iff true = ((λ h. cc), (λ h. cc))
not_found_iff false = ((λ h. refl), (λ h. refl))

-- Where the store answers, revoking one session takes out exactly the rows with that id and that
-- owner, and answers not found exactly where there is none.
pub revoke_exact :
    (session_id user_id : Text) (w : World)
    → w.fault w.calls ≡ false
    → ((r : Session)
        → Memᴰ r (Service.revoke session_id user_id w).1.sessions
          ↔ (Memᴰ r w.sessions × ((r.id ≢ session_id) ⊎ (r.user_id ≢ user_id))))
      × (((Service.revoke session_id user_id w).0 ≡ err not_found)
          ↔ ((r : Session) → Memᴰ r w.sessions → (r.id ≢ session_id) ⊎ (r.user_id ≢ user_id)))
revoke_exact session_id user_id w up =
    let (rows, answer) = revoke_state session_id user_id w up in
    let owned = is_owned_iff session_id user_id in
    let none_there = counted_none (is_owned session_id user_id) w.sessions in
    rw (rows, answer)
      (
        (λ r.
            let split = memᴰ-delete_where (is_owned session_id user_id) w.sessions r in
            (
              (λ m. ((split.0 m).0, (owned r).0 (split.0 m).1)),
              (λ m. split.1 (m.0, (owned r).1 m.1)),
            )),
        (
          (λ h r m. (owned r).0 (none_there.0 ((not_found_iff _).0 h) r m)),
          (λ h. (not_found_iff _).1 (none_there.1 (λ r m. (owned r).1 (h r m)))),
        ),
      )
