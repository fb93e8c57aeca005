-- ===== src/Sessions/Verify.antt =====
-- src/domain/Sessions.ts: what `verify` answers.
use effect_auth.Prelude.{
  ℕ, suc, ◌+◌, ◌<◌, ◌≡◌, refl, inl, inr, Bool, true, false, Option, none, some, List, Memᴰ, Text,
  text_eq, arith, filter, head?, map, Bool-cases, if◌then◌else◌,
}
use effect_auth.Runtime.{
  World, Session, User, ok, err, resume, now, from_option, unauthorized, ◌>>=◌,
}
use effect_auth.Sessions.{
  SessionConfig, VerifiedSession, is_expired, is_refresh_due, granted_lifetime,
}
use effect_auth.Sessions.Store
use effect_auth.Sessions.Store.{find_user, find_joined, has_id, is_owned, moved}
use effect_auth.Sessions.Service
use effect_auth.Sessions.Invariant.{IsWellFormed}
use effect_auth.Sessions.Lookup.{IsJoin, find_joined_sound, filter-has_id}

touched_row :
    (rows : List Session) (s : Session) (expires_at at : ℕ)
    → IsWellFormed rows
    → Memᴰ s rows
    → head? (map (moved expires_at at) (filter (has_id s.id) rows)) ≡ some (moved expires_at at s)
touched_row rows s expires_at at h m = rw (filter-has_id rows s h.ids m) refl

-- The session that an accepted row is answered as.
abbrev pub answered : SessionConfig → Session → Bool → ℕ → ℕ → Session
answered config row refreshed at after =
    if refreshed then moved (at + granted_lifetime row config) after row else row

module _ (config : SessionConfig) where
  record IsJudged (row : Session) (u : User) (at : ℕ) (w : World) (v : VerifiedSession)
      : Type 0 where
    user : v.user ≡ u
    live : at < row.expires_at
    due : v.refreshed ≡ is_refresh_due row config at
    session : v.session ≡ answered config row v.refreshed at (w.clock w.reads)

  refresh_sound :
      (row : Session) (u : User) (at : ℕ) (w : World) (v : VerifiedSession)
      → IsWellFormed w.sessions
      → Memᴰ row w.sessions
      → (Service.refresh config row u at w).0 ≡ ok v
      → v ≡ record {
        session = moved (at + granted_lifetime row config) (w.clock w.reads) row;
        user = u;
        refreshed = true;
      }
  unfolding Service.refresh Store.touch
  refresh_sound row u at w v h m e =
      ground
        (arith, touched_row w.sessions row (at + granted_lifetime row config) (w.clock w.reads) h m)

  judge_sound :
      (row : Session) (u : User) (at : ℕ) (w : World) (v : VerifiedSession)
      → IsWellFormed w.sessions
      → Memᴰ row w.sessions
      → (Service.judge config row u at w).0 ≡ ok v
      → IsJudged row u at w v
  unfolding Service.judge is_expired
  judge_sound row u at w v h m e = elim (Bool-cases (is_expired row at)) [
    | inl over ↦ cc (rw over at e)
    | inr live ↦ elim (Bool-cases (is_refresh_due row config at)) [
      | inl due ↦ ground (arith, refresh_sound row u at w v h m (rw (live, due) at e))
      | inr early ↦ ground (arith, rw (live, early) at e)
    ]
  ]

module _ (hash_token : Text → Text) (config : SessionConfig) where
  -- What an accepted token says of the table that it was presented to.
  pub record Resolves (token : Text) (w : World) (v : VerifiedSession) : Type 0 where
    pub row : Session
    pub joined : IsJoin (hash_token token) w.sessions w.users row v.user
    pub live : w.clock w.reads < row.expires_at
    pub due : v.refreshed ≡ is_refresh_due row config (w.clock w.reads)
    pub session :
        v.session ≡ answered config row v.refreshed (w.clock w.reads) (w.clock (suc w.reads))

  -- In a well-formed table, a token is accepted only for a stored, unexpired row with its digest
  -- and that row's user; the session answered is that row, moved forward exactly where the
  -- refresh is due.
  pub verify_sound :
      (token : Text) (w : World) (v : VerifiedSession)
      → IsWellFormed w.sessions
      → (Service.verify hash_token config token w).0 ≡ ok v
      → Resolves token w v
  unfolding Service.verify Store.find_by_token_hash
  verify_sound token w v h e = elim (Bool-cases (w.fault w.calls)) [
    | inl down ↦ cc (rw down at e)
    | inr up ↦ found (find_joined (hash_token token) w.sessions w.users) refl (rw up at e)
  ]
    where
      after : World
      after = record w { calls = suc w.calls; reads = suc w.reads }

      found :
          (o : Option (Session × User))
          → find_joined (hash_token token) w.sessions w.users ≡ o
          → (resume
              (from_option o unauthorized (record w { calls = suc w.calls }))
              (λ pair. (do at ← now; Service.judge config pair.0 pair.1 at))).0
            ≡ ok v
          → Resolves token w v
      found none q k = cc
      found (some (row, u)) q k =
          let j = find_joined_sound (hash_token token) w.sessions w.users row u q in
          let judged = judge_sound config row u (w.clock w.reads) after v h j.stored k in
          record {
            row = row;
            joined = rw judged.user j;
            live = judged.live;
            due = judged.due;
            session = judged.session;
          }

  -- Where the store answers, a digest that no row joins is refused as unauthorized, and the table
  -- stays as it was.
  pub verify_unknown :
      (token : Text) (w : World)
      → w.fault w.calls ≡ false
      → find_joined (hash_token token) w.sessions w.users ≡ none
      → ((Service.verify hash_token config token w).0 ≡ err unauthorized)
        × ((Service.verify hash_token config token w).1.sessions ≡ w.sessions)
  unfolding Service.verify Store.find_by_token_hash
  verify_unknown token w up e = (rw (up, e) refl, rw (up, e) refl)
