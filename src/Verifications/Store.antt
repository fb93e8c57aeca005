-- ===== src/Verifications/Store.antt =====
-- src/sql/stores/Verifications.ts: the `verifications` table, whose only unique key is the id.
use effect_auth.Prelude.{
  ℕ, Bool, ◌&&◌, Option, [], ◌∷◌, ◌++◌, Text, text_eq, codes, ltb, leb, ◌==◌, any, head?,
  if◌then◌else◌,
}
use effect_auth.Runtime.{Verification, Auth, ok, err, persistence, now, persist, ◌>>=◌}
use effect_auth.Sql.{Dialect, consume_one, delete_and_count}

unfoldable pub insert_row : Verification → Auth Verification
insert_row row w =
    if any (λ r. r.id == row.id) w.verifications
    then (err (persistence (codes "VerificationStore.create")), w)
    else (ok row, record w { verifications = w.verifications ++ row ∷ [] })

unfoldable pub create : Verification → Auth Verification
create row = persist (codes "VerificationStore.create") (insert_row row)

abbrev pub names : Text → Text → Verification → Bool
names identifier value_hash row = row.identifier == identifier && row.value_hash == value_hash

-- identifier = ? AND value_hash = ? AND expires_at > ?
abbrev pub is_claimable : Text → Text → ℕ → Verification → Bool
is_claimable identifier value_hash at row = names identifier value_hash row && ltb at row.expires_at

unfoldable pub consume_row : Dialect → Text → Text → ℕ → Auth (Option Verification)
consume_row dialect identifier value_hash at w =
    let (rows, taken) =
      consume_one (is_claimable identifier value_hash at) dialect w.verifications in
    (ok (head? taken), record w { verifications = rows })

unfoldable pub consume_now : Dialect → Text → Text → Auth (Option Verification)
consume_now dialect identifier value_hash = do
  at ← now
  consume_row dialect identifier value_hash at

unfoldable pub consume : Dialect → Text → Text → Auth (Option Verification)
unfolding consume_now
consume dialect identifier value_hash =
    persist (codes "VerificationStore.consume") (consume_now dialect identifier value_hash)

unfoldable pub delete_rows : (Verification → Bool) → Auth ℕ
delete_rows p w =
    let (rows, count) = delete_and_count p w.verifications in
    (ok count, record w { verifications = rows })

abbrev pub has_identifier : Text → Verification → Bool
has_identifier identifier row = row.identifier == identifier

unfoldable pub delete_by_identifier : Text → Auth ℕ
unfolding delete_rows
delete_by_identifier identifier =
    persist (codes "VerificationStore.deleteByIdentifier") (delete_rows (has_identifier identifier))

abbrev pub is_past : ℕ → Verification → Bool
is_past at row = leb row.expires_at at

-- The clock is read before the call.
unfoldable pub delete_expired : Auth ℕ
unfolding delete_rows
delete_expired = do
  at ← now
  persist (codes "VerificationStore.deleteExpired") (delete_rows (is_past at))
