-- ===== src/Sessions/StepUp.antt =====
-- An elevation: the log it appends to, the level it reaches, and the token that it retires.
use effect_auth.Prelude.{
  ℕ, suc, ◌≤◌, ◌≡◌, refl, sym, ap, ◌∙◌, ◌≢◌, ◌⊎◌, inl, inr, Bool, true, false, some, List, [], ◌∷◌,
  ◌++◌, Memᴰ, Text, codes, text_eq, arith, ◌==◌, any, All, Bool-cases, any_complete, beq_self,
  beq_ne, if◌then◌else◌,
}
use effect_auth.Assurance.{derive_aal}
use effect_auth.Assurance.Level.{rank_of, derive_aal_mono}
use effect_auth.Runtime.{World, Session, ok, err, err-ne-ok, persistence, unauthorized}
use effect_auth.Sql.{update_where}
use effect_auth.Sql.Rows.{All-memᴰ, Distinct}
use effect_auth.Sessions.{SessionConfig, Evidence, CreatedSession, stamp_evidence}
use effect_auth.Sessions.Store
use effect_auth.Sessions.Store.{has_id, raised, digest_taken, find_joined}
use effect_auth.Sessions.Service
use effect_auth.Sessions.Invariant.{IsWellFormed, HasLevel, digest_of}
use effect_auth.Sessions.Lookup.{filter-has_id, find_joined-none}
use effect_auth.Sessions.Verify.{verify_unknown}

-- The raised row's digest, and those of the other rows, differ from the row's old one.
raised_apart :
    (row : Session) (patch : Store.ElevatePatch) (at : ℕ) (r : Session)
    → row.token_hash ≢ patch.token_hash
    → (r.id == row.id ≡ true) ⊎ (row.token_hash ≢ r.token_hash)
    → ((if r.id == row.id then raised patch at r else r).token_hash == row.token_hash) ≡ false
raised_apart row patch at r new h = elim (Bool-cases (r.id == row.id)) [
  | inl e ↦ rw e (beq_ne patch.token_hash row.token_hash (λ q. new (sym q)))
  | inr e ↦
      rw e
        (elim h [ inl k ↦ cc (e, k) | inr k ↦ beq_ne r.token_hash row.token_hash (λ q. k (sym q)) ])
]

abbrev digests_after : Session → Store.ElevatePatch → ℕ → List Session → Bool
digests_after row patch at rows =
    any (λ r. r.token_hash == row.token_hash) (update_where (has_id row.id) (raised patch at) rows)

others_apart :
    (rows : List Session) (row : Session) (patch : Store.ElevatePatch) (at : ℕ)
    → row.token_hash ≢ patch.token_hash
    → All (λ q. row.token_hash ≢ q.token_hash) rows
    → digests_after row patch at rows ≡ false
others_apart [] row patch at new h = refl
others_apart (r ∷ rows) row patch at new h =
    rw (raised_apart row patch at r new (inr h.0)) (others_apart rows row patch at new h.1)

-- Where the raised row's new digest differs, its old digest is gone from the table.
old_digest_gone :
    (rows : List Session) (row : Session) (patch : Store.ElevatePatch) (at : ℕ)
    → Distinct digest_of rows
    → Memᴰ row rows
    → row.token_hash ≢ patch.token_hash
    → digests_after row patch at rows ≡ false
old_digest_gone [] row patch at d m new = elim m [ ]
old_digest_gone (r ∷ rows) row patch at d (Memᴰ.head e) new =
    rw (raised_apart row patch at r new (inl (rw e (beq_self r.id))))
      (others_apart rows row patch at new (rw e d.0))
old_digest_gone (r ∷ rows) row patch at d (Memᴰ.tail m) new =
    let apart = All-memᴰ (λ q. r.token_hash ≢ q.token_hash) rows row d.0 m in
    rw (raised_apart row patch at r new (inr (λ q. apart (sym q))))
      (old_digest_gone rows row patch at d.1 m new)

-- The statement on a stored row, where it is allowed: the row is raised and answered.
raise_row-ok :
    (row : Session) (patch : Store.ElevatePatch) (at : ℕ) (w : World)
    → IsWellFormed w.sessions
    → Memᴰ row w.sessions
    → digest_taken row.id patch.token_hash w.sessions ≡ false
    → Store.raise_row row.id patch at w ≡ (
      ok (some (raised patch at row)),
      record w { sessions = update_where (has_id row.id) (raised patch at) w.sessions },
    )
unfolding Store.raise_row
raise_row-ok row patch at w h m free =
    rw
      (
        any_complete (has_id row.id) w.sessions row m (beq_self row.id),
        free,
        filter-has_id w.sessions row h.ids m,
      )
      refl

raise_row-taken :
    (row : Session) (patch : Store.ElevatePatch) (at : ℕ) (w : World)
    → Memᴰ row w.sessions
    → digest_taken row.id patch.token_hash w.sessions ≡ true
    → Store.raise_row row.id patch at w ≡ (err (persistence (codes "SessionStore.elevate")), w)
unfolding Store.raise_row
raise_row-taken row patch at w m taken =
    rw (any_complete (has_id row.id) w.sessions row m (beq_self row.id), taken) refl

module _ (hash_token : Text → Text) where
  -- What a successful elevation of a stored row has done.
  pub record IsElevated (row : Session) (evidence : Evidence) (w w' : World) (c : CreatedSession)
      : Type 0 where
    pub token : c.token ≡ w.tokens w.drawn
    pub session :
        c.session
        ≡ raised
            (Service.patch_of hash_token evidence (w.clock w.reads) (w.tokens w.drawn))
            (w.clock (suc w.reads))
            row
    pub stored :
        w'.sessions
        ≡ update_where
            (has_id row.id)
            (raised
              (Service.patch_of hash_token evidence (w.clock w.reads) (w.tokens w.drawn))
              (w.clock (suc w.reads)))
            w.sessions
    pub users : w'.users ≡ w.users

  pub elevate_sound :
      (row held : Session) (evidence : Evidence) (w w' : World) (c : CreatedSession)
      → IsWellFormed w.sessions
      → Memᴰ row w.sessions
      → held.id ≡ row.id
      → Service.elevate hash_token held evidence w ≡ (ok c, w')
      → IsElevated row evidence w w' c
  unfolding Service.elevate Store.elevate Store.elevate_row
  elevate_sound row held evidence w w' c h m same e = elim (Bool-cases (w.fault w.calls)) [
    | inl down ↦ absurd (err-ne-ok (rw down at e))
    | inr up ↦ elim (Bool-cases (digest_taken row.id patch.token_hash w.sessions)) [
      | inl taken ↦
          absurd (err-ne-ok (rw (up, same, raise_row-taken row patch at read m taken) at e))
      | inr free ↦ ground (arith, rw (up, same, raise_row-ok row patch at read h m free) at e)
    ]
  ]
    where
      patch : Store.ElevatePatch
      patch = Service.patch_of hash_token evidence (w.clock w.reads) (w.tokens w.drawn)

      at : ℕ
      at = w.clock (suc w.reads)

      read : World
      read = record w { reads = suc (suc w.reads); drawn = suc w.drawn; calls = suc w.calls }

  -- An elevation of a row of a well-formed table appends one entry to the stored log, whatever
  -- log the caller held, re-derives the level from the whole of it, never lowers it, and moves
  -- the moment of authentication.
  pub elevate-stored :
      (row held : Session) (evidence : Evidence) (w w' : World) (c : CreatedSession)
      → IsWellFormed w.sessions
      → Memᴰ row w.sessions
      → held.id ≡ row.id
      → Service.elevate hash_token held evidence w ≡ (ok c, w')
      → (c.session.id ≡ row.id)
        × (c.session.methods ≡ row.methods ++ stamp_evidence evidence (w.clock w.reads) ∷ [])
        × (c.session.aal ≡ derive_aal c.session.methods)
        × (rank_of row.aal ≤ rank_of c.session.aal)
        × (c.session.authenticated_at ≡ w.clock w.reads)
        × (c.session.expires_at ≡ row.expires_at)
  elevate-stored row held evidence w w' c h m same e =
      let f = elevate_sound row held evidence w w' c h m same e in
      rw f.session (
        refl,
        refl,
        refl,
        rw (All-memᴰ HasLevel w.sessions row h.levels m)
            (derive_aal_mono row.methods (stamp_evidence evidence (w.clock w.reads) ∷ [])),
        refl,
        refl,
      )

  -- Once a session of a well-formed table is elevated, a token with its previous digest is
  -- refused as unauthorized, where the new token has another digest and the store answers.
  pub verify-elevate :
      (config : SessionConfig) (row held : Session) (evidence : Evidence) (w w' : World)
      (c : CreatedSession) (token : Text)
      → IsWellFormed w.sessions
      → Memᴰ row w.sessions
      → held.id ≡ row.id
      → Service.elevate hash_token held evidence w ≡ (ok c, w')
      → hash_token token ≡ row.token_hash
      → row.token_hash ≢ hash_token c.token
      → w'.fault w'.calls ≡ false
      → (Service.verify hash_token config token w').0 ≡ err unauthorized
  verify-elevate config row held evidence w w' c token h m same e old new up =
      let f = elevate_sound row held evidence w w' c h m same e in
      let gone =
        old_digest_gone w.sessions row
          (Service.patch_of hash_token evidence (w.clock w.reads) (w.tokens w.drawn))
          (w.clock (suc w.reads)) h.digests m (λ q. new (q ∙ ap hash_token (sym f.token))) in
      (verify_unknown hash_token config token w' up
        (rw (old, f.stored) (find_joined-none row.token_hash _ w'.users gone))).0
