-- ===== src/Sessions/Invariant.antt =====
-- The well-formedness of the `sessions` table, which every operation of the service keeps.
use effect_auth.Prelude.{
  ℕ, ◌≡◌, refl, sym, ◌∙◌, ◌≢◌, inl, inr, Bool, true, false, not, ◌&&◌, ◌||◌, List, [], ◌∷◌, ◌++◌,
  Text, text_eq, arith, ◌==◌, All, Bool-cases, ne_of_beq, beq_ne, text_eq_iff,
}
use effect_auth.Assurance.{AuthenticationMethod, derive_aal}
use effect_auth.Runtime.{Session}
use effect_auth.Sql.{update_where, delete_where}
use effect_auth.Sql.Rows.{
  All-filter, All-snoc, All-update, All-any-false, All-map_weaken, All-zip, update_where-none,
  Distinct, Distinct-filter, Distinct-snoc, Distinct-update_same,
}
use effect_auth.Sessions.Store.{violates_unique, has_id, digest_taken, moved, ElevatePatch, raised}

abbrev pub id_of : Session → Text
id_of row = row.id

abbrev pub digest_of : Session → Text
digest_of row = row.token_hash

-- The stored level is the one that the stored log derives.
abbrev pub HasLevel : Session → Type 0
HasLevel row = row.aal ≡ derive_aal row.methods

pub record IsWellFormed (rows : List Session) : Type 0 where
  pub ids : Distinct id_of rows
  pub digests : Distinct digest_of rows
  pub levels : All HasLevel rows

pub insert-IsWellFormed :
    (rows : List Session) (s : Session)
    → IsWellFormed rows
    → violates_unique s rows ≡ false
    → HasLevel s
    → IsWellFormed (rows ++ s ∷ [])
insert-IsWellFormed rows s h fresh level = record {
  ids =
      Distinct-snoc id_of rows s h.ids
        (All-map_weaken rows (λ r e. ne_of_beq r.id s.id (ground arith)) apart);
  digests =
      Distinct-snoc digest_of rows s h.digests
        (All-map_weaken rows (λ r e. ne_of_beq r.token_hash s.token_hash (ground arith)) apart);
  levels = All-snoc HasLevel rows s h.levels level;
}
  where
    apart : All (λ r. (r.id == s.id || r.token_hash == s.token_hash) ≡ false) rows
    apart = All-any-false _ rows fresh

pub delete-IsWellFormed :
    (p : Session → Bool) (rows : List Session)
    → IsWellFormed rows
    → IsWellFormed (delete_where p rows)
delete-IsWellFormed p rows h = record {
  ids = Distinct-filter id_of (λ r. not (p r)) rows h.ids;
  digests = Distinct-filter digest_of (λ r. not (p r)) rows h.digests;
  levels = All-filter HasLevel (λ r. not (p r)) rows h.levels;
}

pub touch-IsWellFormed :
    (id : Text) (expires_at at : ℕ) (rows : List Session)
    → IsWellFormed rows
    → IsWellFormed (update_where (has_id id) (moved expires_at at) rows)
touch-IsWellFormed id expires_at at rows h = record {
  ids = Distinct-update_same id_of (has_id id) (moved expires_at at) rows (λ r. refl) h.ids;
  digests =
      Distinct-update_same digest_of (has_id id) (moved expires_at at) rows (λ r. refl) h.digests;
  levels = All-update HasLevel (has_id id) (moved expires_at at) rows (λ r _ k. k) h.levels;
}

-- Where no other row holds the digest that the row with the id is given.
Distinct-raised :
    (id : Text) (patch : ElevatePatch) (at : ℕ) (rows : List Session)
    → Distinct id_of rows
    → Distinct digest_of rows
    → digest_taken id patch.token_hash rows ≡ false
    → Distinct digest_of (update_where (has_id id) (raised patch at) rows)
Distinct-raised id patch at [] hid hd free = tt
Distinct-raised id patch at (r ∷ rows) hid hd free = elim (Bool-cases (r.id == id)) [
  | inl this ↦
      let others : All (λ q. has_id id q ≡ false) rows =
        All-map_weaken rows (λ q d. other_id this q d) hid.0 in
      rw (this, update_where-none (has_id id) (raised patch at) rows others)
        (All-zip rows (λ q a b. hash_ne q a b) others (All-any-false _ rows rest_free), hd.1)
  | inr other ↦ rw other (
    All-update (λ q. r.token_hash ≢ q.token_hash) (has_id id) (raised patch at) rows
        (λ q _ _. ne_of_beq r.token_hash patch.token_hash (ground arith)) hd.0,
    Distinct-raised id patch at rows hid.1 hd.1 rest_free,
  )
]
  where
    rest_free : digest_taken id patch.token_hash rows ≡ false
    rest_free = ground arith

    other_id : (r.id == id) ≡ true → (q : Session) → r.id ≢ q.id → (q.id == id) ≡ false
    other_id this q d = beq_ne q.id id (λ e. d ((text_eq_iff r.id id).0 this ∙ sym e))

    hash_ne :
        (q : Session)
        → has_id id q ≡ false
        → (not (q.id == id) && q.token_hash == patch.token_hash) ≡ false
        → patch.token_hash ≢ q.token_hash
    hash_ne q a b e = ne_of_beq q.token_hash patch.token_hash (ground arith) (sym e)

-- The patch of the service writes a log together with the level that it derives.
abbrev pub IsHonest : ElevatePatch → Type 0
IsHonest patch =
    (stored : List AuthenticationMethod)
    → (patch.append stored).1 ≡ derive_aal (patch.append stored).0

pub elevate-IsWellFormed :
    (id : Text) (patch : ElevatePatch) (at : ℕ) (rows : List Session)
    → IsHonest patch
    → IsWellFormed rows
    → digest_taken id patch.token_hash rows ≡ false
    → IsWellFormed (update_where (has_id id) (raised patch at) rows)
elevate-IsWellFormed id patch at rows honest h free = record {
  ids = Distinct-update_same id_of (has_id id) (raised patch at) rows (λ r. refl) h.ids;
  digests = Distinct-raised id patch at rows h.ids h.digests free;
  levels =
      All-update HasLevel (has_id id) (raised patch at) rows (λ r _ k. honest r.methods) h.levels;
}
