-- ===== src/Sessions/Lookup.antt =====
-- The rows that the statements of the session store find.
use effect_auth.Prelude.{
  subst, ◌≡◌, refl, sym, ap, ◌∙◌, ◌≢◌, inl, inr, true, false, Option, none, some, List, [], ◌∷◌,
  Memᴰ, Text, text_eq, text_eq_iff, arith, ◌==◌, All, any, filter, Bool-cases, beq_self, beq_ne,
}
use effect_auth.Runtime.{Session, User}
use effect_auth.Sql.Rows.{Distinct, All-memᴰ, All-map_weaken, filter-none}
use effect_auth.Sessions.Invariant.{digest_of, id_of}
use effect_auth.Sessions.Store.{find_user, find_joined, with_user, has_id, has_user}

find_user_sound :
    (id : Text) (users : List User) (u : User) → find_user id users ≡ some u → u.id ≡ id
unfolding find_user
find_user_sound id [] u h = cc
find_user_sound id (v ∷ users) u h = ground (arith, find_user_sound id users u, text_eq_iff v.id id)

pub find_user_total :
    (id : Text) (users : List User)
    → has_user id users ≡ true
    → (u : User) × (find_user id users ≡ some u) × (u.id ≡ id)
unfolding find_user
find_user_total id [] h = absurd (cc)
find_user_total id (v ∷ users) h = elim (Bool-cases (v.id == id)) [
  | inl e ↦ (v, rw e refl, (text_eq_iff v.id id).0 e)
  | inr e ↦ let (u, f, q) = find_user_total id users (rw e at h) in (u, rw e f, q)
]

-- What the join answers is a stored row with the digest and its user.
pub record IsJoin (token_hash : Text) (rows : List Session) (users : List User) (s : Session)
    (u : User) : Type 0 where
  pub stored : Memᴰ s rows
  pub digest : s.token_hash ≡ token_hash
  pub owner : find_user s.user_id users ≡ some u

IsJoin-tail :
    (token_hash : Text) (r : Session) (rows : List Session) (users : List User) {s : Session}
    {u : User}
    → IsJoin token_hash rows users s u
    → IsJoin token_hash (r ∷ rows) users s u
IsJoin-tail token_hash r rows users j = record {
  stored = Memᴰ.tail j.stored;
  digest = j.digest;
  owner = j.owner;
}

pub find_joined_sound :
    (token_hash : Text) (rows : List Session) (users : List User) (s : Session) (u : User)
    → find_joined token_hash rows users ≡ some (s, u)
    → IsJoin token_hash rows users s u
unfolding find_joined
find_joined_sound token_hash [] users s u h = cc
find_joined_sound token_hash (r ∷ rows) users s u h =
    elim (Bool-cases (r.token_hash == token_hash)) [
      | inl e ↦
          at_row e (find_joined_sound token_hash rows users s u) (find_user r.user_id users) refl
            (rw e at h)
      | inr e ↦
          IsJoin-tail token_hash r rows users
            (find_joined_sound token_hash rows users s u (rw e at h))
    ]
  where
    at_row :
        (r.token_hash == token_hash) ≡ true
        → (find_joined token_hash rows users ≡ some (s, u) → IsJoin token_hash rows users s u)
        → (o : Option User) → find_user r.user_id users ≡ o
        → with_user r o (find_joined token_hash rows users) ≡ some (s, u)
        → IsJoin token_hash (r ∷ rows) users s u
    at_row e later none q k = IsJoin-tail token_hash r rows users (later k)
    at_row e later (some v) q k = record {
      stored = Memᴰ.head (cc);
      digest = ap digest_of same ∙ (text_eq_iff r.token_hash token_hash).0 e;
      owner = ground arith;
    }
      where
        same : s ≡ r
        same = cc

-- A digest that no row holds is not found.
pub find_joined-none :
    (token_hash : Text) (rows : List Session) (users : List User)
    → any (λ r. r.token_hash == token_hash) rows ≡ false
    → find_joined token_hash rows users ≡ none
unfolding find_joined
find_joined-none token_hash [] users h = refl
find_joined-none token_hash (r ∷ rows) users h =
    ground (arith, find_joined-none token_hash rows users)

-- A stored row whose digest no other row holds is the one that is found.
pub find_joined_complete :
    (rows : List Session) (users : List User) (s : Session) (u : User)
    → Distinct digest_of rows
    → Memᴰ s rows
    → find_user s.user_id users ≡ some u
    → find_joined s.token_hash rows users ≡ some (s, u)
unfolding find_joined
find_joined_complete [] users s u d m owner = elim m [ ]
find_joined_complete (r ∷ rows) users s u d (Memᴰ.head e) owner =
    rw (← e) (rw (beq_self s.token_hash, owner) refl)
find_joined_complete (r ∷ rows) users s u d (Memᴰ.tail m) owner =
    rw (beq_ne r.token_hash s.token_hash (All-memᴰ (λ q. r.token_hash ≢ q.token_hash) rows s d.0 m))
      (find_joined_complete rows users s u d.1 m owner)

-- The statements that name an id address that row alone.
pub filter-has_id :
    (rows : List Session) (s : Session)
    → Distinct id_of rows
    → Memᴰ s rows
    → filter (has_id s.id) rows ≡ s ∷ []
filter-has_id [] s d m = elim m [ ]
filter-has_id (r ∷ rows) s d (Memᴰ.head e) =
    subst (λ x. filter (has_id x.id) (r ∷ rows) ≡ x ∷ []) (sym e)
      (rw (beq_self r.id, filter-none (has_id r.id) rows others) refl)
  where
    others : All (λ q. has_id r.id q ≡ false) rows
    others = All-map_weaken rows (λ q n. beq_ne q.id r.id (λ k. n (sym k))) d.0
filter-has_id (r ∷ rows) s d (Memᴰ.tail m) =
    rw (beq_ne r.id s.id (All-memᴰ (λ q. r.id ≢ q.id) rows s d.0 m)) (filter-has_id rows s d.1 m)
