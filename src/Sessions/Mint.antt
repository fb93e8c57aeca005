-- ===== src/Sessions/Mint.antt =====
-- A minted session, and what its token then resolves to.
use effect_auth.Prelude.{
  inl, inr, suc, ◌≡◌, refl, sym, ap, subst, ◌∙◌, true, false, not, ◌||◌, some, [], ◌∷◌, ◌++◌, Memᴰ,
  Text, text_eq, arith, Bool-cases, memᴰ-append-right,
}
use effect_auth.Assurance.{derive_aal}
use effect_auth.Runtime.{World, Session, User, Result, ok}
use effect_auth.Sessions.{SessionConfig, CreateOptions, CreatedSession, is_expired, is_refresh_due}
use effect_auth.Sessions.Store
use effect_auth.Sessions.Store.{violates_unique, has_user, find_user, find_joined}
use effect_auth.Sessions.Service
use effect_auth.Sessions.Invariant.{IsWellFormed, insert-IsWellFormed}
use effect_auth.Sessions.Lookup.{find_user_total, find_joined_complete}

module _ (hash_token : Text → Text) (config : SessionConfig) where
  -- What a successful mint has done.
  pub record IsMinted (options : CreateOptions) (w w' : World) (c : CreatedSession) : Type 0 where
    pub token : c.token ≡ w.tokens w.drawn
    pub session :
        c.session
        ≡ Service.new_row hash_token config options
            (w.tokens w.drawn)
            (w.clock w.reads)
            (w.ids w.minted)
            (w.clock (suc w.reads))
            (w.clock (suc (suc w.reads)))
    pub stored : w'.sessions ≡ w.sessions ++ c.session ∷ []
    pub users : w'.users ≡ w.users
    pub events : w'.events ≡ w.events
    pub fresh : violates_unique c.session w.sessions ≡ false
    pub owned : has_user options.user_id w.users ≡ true

  pub create_sound :
      (options : CreateOptions) (w : World) (c : CreatedSession)
      → (Service.create hash_token config options w).0 ≡ ok c
      → IsMinted options w (Service.create hash_token config options w).1 c
  unfolding Service.create Store.create
  create_sound options w c e = elim (Bool-cases (w.fault w.calls)) [
    | inl down ↦ cc (rw down at e)
    | inr up ↦
        elim (Bool-cases
          (violates_unique row w.sessions || not (has_user options.user_id w.users))) [
            | inl bad ↦ cc (rw (up, bad) at e)
            | inr good ↦
                let q : c ≡ record { session = row; token = w.tokens w.drawn } =
                  ground (arith, rw (up, good) at e) in
                rw (q, up, good)
                  (record {
                    token = refl;
                    session = refl;
                    stored = refl;
                    users = refl;
                    events = refl;
                    fresh = ground arith;
                    owned = ground arith;
                  })
          ]
  ]
    where
      row : Session
      row =
          Service.new_row hash_token config options (w.tokens w.drawn) (w.clock w.reads)
            (w.ids w.minted) (w.clock (suc w.reads)) (w.clock (suc (suc w.reads)))

  minted_joins :
      (options : CreateOptions) (w w' : World) (c : CreatedSession)
      → IsWellFormed w.sessions
      → IsMinted options w w' c
      → (u : User) × (u.id ≡ options.user_id)
        × (find_joined (hash_token c.token) w'.sessions w'.users ≡ some (c.session, u))
  minted_joins options w w' c h m =
      let (u, found, same) = find_user_total options.user_id w.users m.owned in
      let digest : hash_token c.token ≡ c.session.token_hash =
        ap hash_token m.token ∙ ap (λ (s : Session). s.token_hash) (sym m.session) in
      let level : c.session.aal ≡ derive_aal c.session.methods = rw m.session refl in
      (
        u,
        same,
        rw (digest, m.stored, m.users)
            (find_joined_complete (w.sessions ++ c.session ∷ []) w.users c.session u
              (insert-IsWellFormed w.sessions c.session h m.fresh level).digests
              (memᴰ-append-right w.sessions (Memᴰ.head refl)) (rw m.session found)),
      )

  -- In a well-formed table, a minted token resolves to the session that was minted, with its
  -- user, while it has neither expired nor become due for a refresh and the store answers.
  pub verify-create :
      (options : CreateOptions) (w w' : World) (c : CreatedSession)
      → IsWellFormed w.sessions
      → Service.create hash_token config options w ≡ (ok c, w')
      → w'.fault w'.calls ≡ false
      → is_expired c.session (w'.clock w'.reads) ≡ false
      → is_refresh_due c.session config (w'.clock w'.reads) ≡ false
      → (u : User) × (u.id ≡ options.user_id)
        × ((Service.verify hash_token config c.token w').0
            ≡ ok (record { session = c.session; user = u; refreshed = false }))
  unfolding Service.verify Store.find_by_token_hash Service.judge
  verify-create options w w' c h e up live early =
      let m : IsMinted options w w' c =
        subst (λ x. IsMinted options w x c) (ap (λ (r : Result CreatedSession × World). r.1) e)
          (create_sound options w c (ap (λ (r : Result CreatedSession × World). r.0) e)) in
      let (u, same, found) = minted_joins options w w' c h m in
      (u, same, rw (up, found, live, early) refl)
