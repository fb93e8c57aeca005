-- ===== src/Sessions/Store.antt =====
-- src/sql/stores/Sessions.ts: the `sessions` table. The primary key, the unique index on the
-- token's digest and the foreign key on the user are those of src/sql/Migrations.ts.
use effect_auth.Prelude.{
  ℕ, Bool, true, false, not, ◌&&◌, ◌||◌, Option, none, some, List, [], ◌∷◌, ◌++◌, Text, text_eq,
  codes, compare, Ordering, ltb, leb, ◌==◌, any, filter, head?, if◌then◌else◌,
}
use effect_auth.Assurance.{Aal, AuthenticationMethod}
use effect_auth.Runtime.{Session, User, Auth, ok, err, persistence, pure, now, persist, ◌>>=◌}
use effect_auth.Sql.{update_and_read, delete_and_count}

abbrev pub violates_unique : Session → List Session → Bool
violates_unique session rows =
    any (λ row. row.id == session.id || row.token_hash == session.token_hash) rows

abbrev pub has_user : Text → List User → Bool
has_user user_id users = any (λ user. user.id == user_id) users

unfoldable pub insert_row : Session → Auth Session
insert_row session w =
    if violates_unique session w.sessions || not (has_user session.user_id w.users)
    then (err (persistence (codes "SessionStore.create")), w)
    else (ok session, record w { sessions = w.sessions ++ session ∷ [] })

unfoldable pub create : Session → Auth Session
unfolding insert_row
create session = persist (codes "SessionStore.create") (insert_row session)

unfoldable pub find_user : Text → List User → Option User
find_user user_id [] = none
find_user user_id (user ∷ users) = if user.id == user_id then some user else find_user user_id users

abbrev pub with_user : Session → Option User → Option (Session × User) → Option (Session × User)
with_user row none later = later
with_user row (some user) later = some (row, user)

-- The join: the first session with the digest whose user is there.
unfoldable pub find_joined : Text → List Session → List User → Option (Session × User)
find_joined token_hash [] users = none
find_joined token_hash (row ∷ rows) users =
    let later = find_joined token_hash rows users in
    if row.token_hash == token_hash
    then with_user row (find_user row.user_id users) later
    else later

unfoldable pub select_joined : Text → Auth (Option (Session × User))
select_joined token_hash w = (ok (find_joined token_hash w.sessions w.users), w)

unfoldable pub find_by_token_hash : Text → Auth (Option (Session × User))
unfolding select_joined
find_by_token_hash token_hash =
    persist (codes "SessionStore.findByTokenHash") (select_joined token_hash)

abbrev pub has_id : Text → Session → Bool
has_id id row = row.id == id

-- Only the expiry and the update stamp move.
abbrev pub moved : ℕ → ℕ → Session → Session
moved expires_at at row = record row { expires_at = expires_at; updated_at = at }

unfoldable pub update_rows : Text → (Session → Session) → Auth (Option Session)
update_rows id f w =
    let (rows, written) = update_and_read (has_id id) f w.sessions in
    (ok (head? written), record w { sessions = rows })

unfoldable pub touch_row : Text → ℕ → Auth (Option Session)
unfolding update_rows
touch_row id expires_at = do at ← now; update_rows id (moved expires_at at)

unfoldable pub touch : Text → ℕ → Auth (Option Session)
unfolding touch_row
touch id expires_at = persist (codes "SessionStore.touch") (touch_row id expires_at)

-- What an elevation writes: the log and the level that `append` makes of the stored log.
pub record ElevatePatch : Type 0 where
  pub append : List AuthenticationMethod → List AuthenticationMethod × Aal
  pub authenticated_at : ℕ
  pub token_hash : Text

abbrev pub raised : ElevatePatch → ℕ → Session → Session
raised patch at row =
    let (methods, aal) = patch.append row.methods in
    record row {
      methods = methods;
      aal = aal;
      authenticated_at = patch.authenticated_at;
      token_hash = patch.token_hash;
      updated_at = at;
    }

-- The digest of another row: the unique index refuses the update.
abbrev pub digest_taken : Text → Text → List Session → Bool
digest_taken id token_hash rows =
    any (λ row. not (row.id == id) && row.token_hash == token_hash) rows

unfoldable pub raise_row : Text → ElevatePatch → ℕ → Auth (Option Session)
unfolding update_rows
raise_row id patch at w =
    if any (has_id id) w.sessions
    then (if digest_taken id patch.token_hash w.sessions
        then (err (persistence (codes "SessionStore.elevate")), w)
        else update_rows id (raised patch at) w)
    else (ok none, w)

unfoldable pub elevate_row : Text → ElevatePatch → Auth (Option Session)
elevate_row id patch = do at ← now; raise_row id patch at

unfoldable pub elevate : Text → ElevatePatch → Auth (Option Session)
unfolding elevate_row
elevate id patch = persist (codes "SessionStore.elevate") (elevate_row id patch)

-- A statement that deletes rows and counts them.
unfoldable pub delete_rows : (Session → Bool) → Auth ℕ
delete_rows p w =
    let (rows, count) = delete_and_count p w.sessions in (ok count, record w { sessions = rows })

abbrev pub is_owned : Text → Text → Session → Bool
is_owned id user_id row = row.id == id && row.user_id == user_id

abbrev pub is_of : Text → Session → Bool
is_of user_id row = row.user_id == user_id

abbrev pub is_other : Text → Text → Session → Bool
is_other user_id session_id row = row.user_id == user_id && not (row.id == session_id)

unfoldable pub delete_owned : Text → Text → Auth Bool
unfolding delete_rows
delete_owned id user_id = do count ← delete_rows (is_owned id user_id); pure (ltb 0 count)

unfoldable pub delete_by_id : Text → Text → Auth Bool
unfolding delete_owned
delete_by_id id user_id = persist (codes "SessionStore.deleteById") (delete_owned id user_id)

unfoldable pub delete_by_user_id : Text → Auth ℕ
unfolding delete_rows
delete_by_user_id user_id =
    persist (codes "SessionStore.deleteByUserId") (delete_rows (is_of user_id))

unfoldable pub delete_by_user_id_except : Text → Text → Auth ℕ
unfolding delete_rows
delete_by_user_id_except user_id session_id =
    persist (codes "SessionStore.deleteByUserIdExcept") (delete_rows (is_other user_id session_id))

-- The binary collation of the ids.
unfoldable pub text_leb : Text → Text → Bool
text_leb [] t = true
text_leb (c ∷ s) [] = false
text_leb (c ∷ s) (d ∷ t) =
    let later = text_leb s t in
    elim (compare c d) [ Ordering.lt ↦ true | Ordering.eq ↦ later | Ordering.gt ↦ false ]

-- ORDER BY created_at DESC, id DESC
unfoldable pub stands_before : Session → Session → Bool
unfolding text_leb
stands_before a b = elim (compare a.created_at b.created_at) [
  | Ordering.lt ↦ false
  | Ordering.eq ↦ text_leb b.id a.id
  | Ordering.gt ↦ true
]

unfoldable pub insert_ordered : Session → List Session → List Session
unfolding stands_before
insert_ordered s [] = s ∷ []
insert_ordered s (r ∷ rows) =
    let later = insert_ordered s rows in if stands_before s r then s ∷ r ∷ rows else r ∷ later

unfoldable pub newest_first : List Session → List Session
unfolding insert_ordered
newest_first [] = []
newest_first (s ∷ rows) = insert_ordered s (newest_first rows)

abbrev pub is_listed : Text → ℕ → Session → Bool
is_listed user_id at row = row.user_id == user_id && ltb at row.expires_at

unfoldable pub select_listed : Text → Auth (List Session)
unfolding newest_first
select_listed user_id = do
  at ← now
  λ w. (ok (newest_first (filter (is_listed user_id at) w.sessions)), w)

unfoldable pub list_by_user_id : Text → Auth (List Session)
unfolding select_listed
list_by_user_id user_id = persist (codes "SessionStore.listByUserId") (select_listed user_id)

-- expires_at <= now
abbrev pub is_past : ℕ → Session → Bool
is_past at row = leb row.expires_at at

unfoldable pub delete_past : Auth ℕ
unfolding delete_rows
delete_past = do at ← now; delete_rows (is_past at)

unfoldable pub delete_expired : Auth ℕ
unfolding delete_past
delete_expired = persist (codes "SessionStore.deleteExpired") delete_past
