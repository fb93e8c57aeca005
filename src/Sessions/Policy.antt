-- ===== src/Sessions/Policy.antt =====
-- Assurance policies over time and over an elevation, and what the rolling refresh leaves alone.
use effect_auth.Prelude.{
  ℕ, suc, ◌-◌, ◌≤◌, ◌<◌, ◌≡◌, refl, Memᴰ, inl, inr, true, not, Option, none, some, List, ◌++◌, Text,
  text_eq, arith, ◌==◌, filter-append, any-append, Bool-cases,
}
use effect_auth.Assurance.{
  Aal, AuthenticationMethod, factor_eq, AssurancePolicy, Duration, millis, infinity,
}
use effect_auth.Assurance.Level.{derive_aal_mono}
use effect_auth.Runtime.{World, Session, ok}
use effect_auth.Sessions.{
  SessionConfig, VerifiedSession, meets_assurance, meets_level, meets_age, meets_methods,
  considered, recovery_code_method, granted_lifetime,
}
use effect_auth.Sessions.Service
use effect_auth.Sessions.Invariant.{IsWellFormed}
use effect_auth.Sessions.Verify.{verify_sound}

considered-append :
    (ms ns : List AuthenticationMethod) (policy : AssurancePolicy)
    → considered (ms ++ ns) policy ≡ considered ms policy ++ considered ns policy
unfolding considered
considered-append ms ns policy =
    ground (arith, filter-append (λ entry. not (entry.method == recovery_code_method)) ms ns)

meets_level-append :
    (ms ns : List AuthenticationMethod) (wanted : Option Aal)
    → meets_level ms wanted ≡ true
    → meets_level (ms ++ ns) wanted ≡ true
unfolding meets_level
meets_level-append ms ns none h = refl
meets_level-append ms ns (some a) h = ground (arith, derive_aal_mono ms ns)

meets_methods-append :
    (ms ns : List AuthenticationMethod) (wanted : Option (List Text))
    → meets_methods ms wanted ≡ true
    → meets_methods (ms ++ ns) wanted ≡ true
unfolding meets_methods
meets_methods-append ms ns none h = refl
meets_methods-append ms ns (some l) h = rw (any-append _ ms ns, h) refl

meets_age_mono :
    (since since' at at' : ℕ) (age : Option Duration)
    → since ≤ since'
    → at' ≤ at
    → meets_age since age at ≡ true
    → meets_age since' age at' ≡ true
unfolding meets_age
meets_age_mono since since' at at' none p q h = refl
meets_age_mono since since' at at' (some (millis n)) p q h = ground arith
meets_age_mono since since' at at' (some infinity) p q h = refl

-- A policy that a session meets is still met, now or at any earlier moment, by a session with more
-- evidence at the end of its log and a later authentication.
pub meets_assurance_mono :
    (s t : Session) (ns : List AuthenticationMethod) (policy : AssurancePolicy) (at at' : ℕ)
    → t.methods ≡ s.methods ++ ns
    → s.authenticated_at ≤ t.authenticated_at
    → at' ≤ at
    → meets_assurance s policy at ≡ true
    → meets_assurance t policy at' ≡ true
unfolding meets_assurance
meets_assurance_mono s t ns policy at at' same later earlier h =
    rw (same, considered-append s.methods ns policy)
      (ground (
        arith,
        meets_level-append (considered s.methods policy) (considered ns policy) policy.aal,
        meets_methods-append (considered s.methods policy) (considered ns policy) policy.methods,
        meets_age_mono s.authenticated_at t.authenticated_at at at' policy.max_age later earlier,
      ))

granted_span :
    (config : SessionConfig) (row : Session)
    → row.updated_at < row.expires_at
    → granted_lifetime row config ≡ row.expires_at - row.updated_at
unfolding granted_lifetime
granted_span config row positive = ground arith

-- In a well-formed table whose rows all expire after they were last written: the time from a
-- session's last write to its expiry is never longer in what resolving a token answers than in the
-- row that was stored under the token, nor is the session any fresher, and it is remembered just
-- where it was; provided that the clock does not run back between the two readings.
pub verify-lifetime :
    (hash_token : Text → Text) (config : SessionConfig) (token : Text) (w : World)
    (v : VerifiedSession)
    → IsWellFormed w.sessions
    → ((s : Session) → Memᴰ s w.sessions → s.updated_at < s.expires_at)
    → w.clock w.reads ≤ w.clock (suc w.reads)
    → (Service.verify hash_token config token w).0 ≡ ok v
    → (row : Session) × Memᴰ row w.sessions
      × (row.token_hash ≡ hash_token token)
      × (row.id ≡ v.session.id)
      × (v.session.expires_at - v.session.updated_at ≤ row.expires_at - row.updated_at)
      × (v.session.authenticated_at ≡ row.authenticated_at)
      × (v.session.remember_me ≡ row.remember_me)
verify-lifetime hash_token config token w v h positive mono e =
    let r = verify_sound hash_token config token w v h e in
    elim (Bool-cases v.refreshed) [
      | inl moved_on ↦
          let q = rw moved_on at r.session in
          (
            r.row,
            r.joined.stored,
            r.joined.digest,
            rw q refl,
            rw q (omega (arith, granted_span config r.row (positive r.row r.joined.stored), mono)),
            rw q refl,
            rw q refl,
          )
      | inr same ↦
          let q = rw same at r.session in
          (
            r.row,
            r.joined.stored,
            r.joined.digest,
            rw q refl,
            rw q (omega arith),
            rw q refl,
            rw q refl,
          )
    ]
