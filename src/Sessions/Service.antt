-- ===== src/Sessions/Service.antt =====
-- src/domain/Sessions.ts, `make`: the operations of the service over its store. `hash_token` is the
-- digest of src/crypto/Token.ts.
use effect_auth.Prelude.{
  ℕ, ◌+◌, Bool, true, false, not, none, some, List, [], ◌∷◌, ◌++◌, map, Text, codes, if◌then◌else◌,
}
use effect_auth.Assurance.{Aal, AuthenticationMethod, derive_aal}
use effect_auth.Runtime.{
  Session, User, Auth, unauthorized, session_expired, not_found, persistence, pure, fail, now,
  generate_token, generate_id, from_option, publish_safely, ignore, signed_out, session_revoked,
  session_elevated, single, everything, others, ◌>>=◌, ◌>>◌,
}
use effect_auth.Sessions.{
  SessionConfig, Evidence, CreateOptions, CreatedSession, VerifiedSession, or_else, stamp_evidence,
  granted_lifetime, is_refresh_due, is_expired, is_fresh_at,
}
use effect_auth.Sessions.Store

-- Only an explicit `false` shortens the lifetime.
abbrev pub remembers : CreateOptions → Bool
remembers options = or_else options.remember_me true

abbrev pub ttl_of : SessionConfig → Bool → ℕ
ttl_of config remember_me =
    if remember_me then config.expires_in else config.remember_me_disabled_expires_in

abbrev pub stamped : CreateOptions → ℕ → List AuthenticationMethod
stamped options at = map (λ evidence. stamp_evidence evidence at) (or_else options.methods [])

-- The level is derived from the whole of the log that the row holds.
abbrev pub append_evidence :
    AuthenticationMethod → List AuthenticationMethod → List AuthenticationMethod × Aal
append_evidence entry stored = let methods = stored ++ entry ∷ [] in (methods, derive_aal methods)

module _ (hash_token : Text → Text) where
  abbrev pub patch_of : Evidence → ℕ → Text → Store.ElevatePatch
  patch_of evidence at token = record {
    append = append_evidence (stamp_evidence evidence at);
    authenticated_at = at;
    token_hash = hash_token token;
  }

  unfoldable pub elevate : Session → Evidence → Auth CreatedSession
  elevate session evidence = do
    at ← now
    token ← generate_token
    updated ← Store.elevate session.id (patch_of evidence at token)
    elevated ← from_option updated (persistence (codes "Sessions.elevate"))
    publish_safely (session_elevated elevated.user_id elevated.id evidence.method)
    pure (record { session = elevated; token = token })

module _ (config : SessionConfig) where
  -- What `verify` does with the row that it found, at the moment that it read.
  unfoldable pub refresh : Session → User → ℕ → Auth VerifiedSession
  refresh session user at = do
    touched ← Store.touch session.id (at + granted_lifetime session config)
    refreshed ← from_option touched unauthorized
    pure (record { session = refreshed; user = user; refreshed = true })

  unfoldable pub judge : Session → User → ℕ → Auth VerifiedSession
  unfolding refresh
  judge session user at =
      if is_expired session at
      then (do ignore (Store.delete_by_id session.id session.user_id); fail session_expired)
      else if not (is_refresh_due session config at)
      then pure (record { session = session; user = user; refreshed = false })
      else refresh session user at

  unfoldable pub is_fresh : Session → Auth Bool
  is_fresh session = do at ← now; pure (is_fresh_at session config at)

module _ (hash_token : Text → Text) (config : SessionConfig) where
  -- The row that the mint inserts. `created_at` and `updated_at` are the model's own readings.
  abbrev pub new_row : CreateOptions → Text → ℕ → Text → ℕ → ℕ → Session
  new_row options token at id created updated = record {
    id = id;
    token_hash = hash_token token;
    user_id = options.user_id;
    expires_at = at + ttl_of config (remembers options);
    ip_address = options.ip_address;
    user_agent = options.user_agent;
    authenticated_at = or_else options.authenticated_at at;
    aal = derive_aal (stamped options at);
    methods = stamped options at;
    remember_me = remembers options;
    created_at = created;
    updated_at = updated;
  }

  unfoldable pub create : CreateOptions → Auth CreatedSession
  create options = do
    token ← generate_token
    at ← now
    id ← generate_id
    created ← now
    updated ← now
    session ← Store.create (new_row options token at id created updated)
    pure (record { session = session; token = token })

  unfoldable pub verify : Text → Auth VerifiedSession
  unfolding judge
  verify token = do
    found ← Store.find_by_token_hash (hash_token token)
    pair ← from_option found unauthorized
    at ← now
    judge config pair.0 pair.1 at

unfoldable pub sign_out : Session → Auth (Unit {0})
sign_out session = do
  removed ← Store.delete_by_id session.id session.user_id
  if removed then publish_safely (signed_out session.user_id session.id) else pure tt

unfoldable pub revoke : Text → Text → Auth (Unit {0})
revoke session_id user_id = do
  removed ← Store.delete_by_id session_id user_id
  if removed
      then publish_safely (session_revoked user_id (some session_id) single 1)
      else fail not_found

unfoldable pub revoke_all : Text → Auth ℕ
revoke_all user_id = do
  count ← Store.delete_by_user_id user_id
  publish_safely (session_revoked user_id none everything count)
  pure count

unfoldable pub revoke_others : Text → Text → Auth ℕ
revoke_others user_id current_session_id = do
  count ← Store.delete_by_user_id_except user_id current_session_id
  publish_safely (session_revoked user_id none others count)
  pure count

unfoldable pub list : Text → Auth (List Session)
list user_id = Store.list_by_user_id user_id
