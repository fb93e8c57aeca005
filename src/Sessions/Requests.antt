-- ===== src/Sessions/Requests.antt =====
-- Sequences of requests against the session service, in any order and with any storage faults.
use effect_auth.Prelude.{
  ℕ, ◌+◌, suc, refl, inl, inr, Bool, not, ◌||◌, List, [], ◌∷◌, Text, text_eq, any, arith,
  Bool-cases, if◌then◌else◌,
}
use effect_auth.Runtime.{
  AuthEvent, pure, fail, not_found, unauthorized, from_option, publish_safely, World, Auth, Session,
  User,
}
use effect_auth.Runtime.Keeps.{bind-Keeps, if-Keeps, from_option-Keeps, persist-Keeps}
use effect_auth.Sessions.{
  SessionConfig, Evidence, CreateOptions, is_expired, is_refresh_due, granted_lifetime,
}
use effect_auth.Sessions.Store
use effect_auth.Sessions.Store.{violates_unique, has_user, has_id, digest_taken, ElevatePatch}
use effect_auth.Sessions.Service
use effect_auth.Sessions.Invariant.{
  IsWellFormed, IsHonest, HasLevel, insert-IsWellFormed, delete-IsWellFormed, touch-IsWellFormed,
  elevate-IsWellFormed,
}

pub data Request : Type 0 where
  mint : CreateOptions → Request
  step_up : Session → Evidence → Request
  resolve : Text → Request
  leave test_fresh : Session → Request
  revoke revoke_others : Text → Text → Request
  revoke_all list : Text → Request
  clean_up : Request

abbrev pub IsSound : World → Type 0
IsSound w = IsWellFormed w.sessions

abbrev KeepsSound : {A : Type 0} → Auth A → Type 0
KeepsSound m = (w : World) → IsSound w → IsSound (m w).1

insert_row-KeepsSound : (s : Session) → HasLevel s → KeepsSound (Store.insert_row s)
unfolding Store.insert_row
insert_row-KeepsSound s level w h =
    elim (Bool-cases (violates_unique s w.sessions || not (has_user s.user_id w.users))) [
      | inl bad ↦ rw bad h
      | inr good ↦ rw good (insert-IsWellFormed w.sessions s h (ground arith) level)
    ]

create-KeepsSound : (s : Session) → HasLevel s → KeepsSound (Store.create s)
unfolding Store.create
create-KeepsSound s level =
    persist-Keeps IsSound _ (Store.insert_row s) (insert_row-KeepsSound s level) (λ w h. h)

touch-KeepsSound : (id : Text) (expires_at : ℕ) → KeepsSound (Store.touch id expires_at)
unfolding Store.touch
touch-KeepsSound id expires_at =
    persist-Keeps IsSound _ (Store.touch_row id expires_at)
      (λ w h. touch-IsWellFormed id expires_at (w.clock w.reads) w.sessions h) (λ w h. h)

raise_row-KeepsSound :
    (id : Text) (patch : ElevatePatch) (at : ℕ)
    → IsHonest patch
    → KeepsSound (Store.raise_row id patch at)
unfolding Store.raise_row
raise_row-KeepsSound id patch at honest w h = elim (Bool-cases (any (has_id id) w.sessions)) [
  | inl there ↦ elim (Bool-cases (digest_taken id patch.token_hash w.sessions)) [
    | inl taken ↦ rw (there, taken) h
    | inr free ↦ rw (there, free) (elevate-IsWellFormed id patch at w.sessions honest h free)
  ]
  | inr gone ↦ rw gone h
]

elevate-KeepsSound :
    (id : Text) (patch : ElevatePatch) → IsHonest patch → KeepsSound (Store.elevate id patch)
unfolding Store.elevate
elevate-KeepsSound id patch honest =
    persist-Keeps IsSound _ (Store.elevate_row id patch)
      (λ w h.
        raise_row-KeepsSound id patch (w.clock w.reads) honest (record w { reads = suc w.reads }) h)
      (λ w h. h)

delete_rows-KeepsSound : (p : Session → Bool) → KeepsSound (Store.delete_rows p)
unfolding Store.delete_rows
delete_rows-KeepsSound p w h = delete-IsWellFormed p w.sessions h

delete_by_id-KeepsSound : (id user_id : Text) → KeepsSound (Store.delete_by_id id user_id)
unfolding Store.delete_by_id
delete_by_id-KeepsSound id user_id =
    persist-Keeps IsSound _ (Store.delete_owned id user_id)
      (λ w h. delete-IsWellFormed (Store.is_owned id user_id) w.sessions h) (λ w h. h)

find-KeepsSound : (token_hash : Text) → KeepsSound (Store.find_by_token_hash token_hash)
unfolding Store.find_by_token_hash
find-KeepsSound token_hash =
    persist-Keeps IsSound _ (Store.select_joined token_hash) (λ w h. h) (λ w h. h)

module _ (hash_token : Text → Text) (config : SessionConfig) where
  create_session-KeepsSound :
      (options : CreateOptions) → KeepsSound (Service.create hash_token config options)
  unfolding Service.create
  create_session-KeepsSound options w h =
      bind-Keeps IsSound (Store.create row) _ (create-KeepsSound row refl) (λ s v k. k) _ h
    where
      row : Session
      row =
          Service.new_row hash_token config options (w.tokens w.drawn) (w.clock w.reads)
            (w.ids w.minted) (w.clock (suc w.reads)) (w.clock (suc (suc w.reads)))

  elevate_session-KeepsSound :
      (session : Session) (evidence : Evidence)
      → KeepsSound (Service.elevate hash_token session evidence)
  unfolding Service.elevate
  elevate_session-KeepsSound session evidence w h =
      bind-Keeps IsSound (Store.elevate session.id patch) _
        (elevate-KeepsSound session.id patch (λ stored. refl))
        (λ updated.
          bind-Keeps IsSound (from_option updated _) _ (from_option-Keeps IsSound updated _)
            (λ elevated v k. k))
        _ h
    where
      patch : ElevatePatch
      patch = Service.patch_of hash_token evidence (w.clock w.reads) (w.tokens w.drawn)

  judge-KeepsSound :
      (session : Session) (user : User) (at : ℕ) → KeepsSound (Service.judge config session user at)
  unfolding Service.judge Service.refresh
  judge-KeepsSound session user at w h = elim (Bool-cases (is_expired session at)) [
    | inl over ↦ rw over (delete_by_id-KeepsSound session.id session.user_id w h)
    | inr live ↦ elim (Bool-cases (is_refresh_due session config at)) [
      | inl due ↦
          rw (live, due)
            (bind-Keeps IsSound (Store.touch session.id until) _ (touch-KeepsSound session.id until)
              (λ touched.
                bind-Keeps IsSound (from_option touched unauthorized) _
                  (from_option-Keeps IsSound touched unauthorized) (λ _ w h. h))
              w h)
      | inr early ↦ rw (live, early) h
    ]
  ]
    where
      until : ℕ
      until = at + granted_lifetime session config

  verify-KeepsSound : (token : Text) → KeepsSound (Service.verify hash_token config token)
  unfolding Service.verify
  verify-KeepsSound token =
      bind-Keeps IsSound (Store.find_by_token_hash (hash_token token)) _
        (find-KeepsSound (hash_token token))
        (λ found.
          bind-Keeps IsSound (from_option found unauthorized) _
            (from_option-Keeps IsSound found unauthorized)
            (λ pair w h. judge-KeepsSound pair.0 pair.1 (w.clock w.reads) _ h))

removed-KeepsSound :
    (e : AuthEvent) (m : Auth (Unit {0})) (removed : Bool)
    → KeepsSound m
    → KeepsSound (if removed then publish_safely e else m)
removed-KeepsSound e m removed k = if-Keeps IsSound removed (publish_safely e) m (λ w h. h) k

-- What serving a request leaves; its answer is dropped.
pub serve : (Text → Text) → SessionConfig → Request → World → World
serve hash_token config (mint options) w = (Service.create hash_token config options w).1
serve hash_token config (step_up session evidence) w =
    (Service.elevate hash_token session evidence w).1
serve hash_token config (resolve token) w = (Service.verify hash_token config token w).1
serve hash_token config (leave session) w = (Service.sign_out session w).1
serve hash_token config (test_fresh session) w = (Service.is_fresh config session w).1
serve hash_token config (revoke session_id user_id) w = (Service.revoke session_id user_id w).1
serve hash_token config (revoke_others user_id session_id) w =
    (Service.revoke_others user_id session_id w).1
serve hash_token config (revoke_all user_id) w = (Service.revoke_all user_id w).1
serve hash_token config (list user_id) w = (Service.list user_id w).1
serve hash_token config clean_up w = (Store.delete_expired w).1

serve-IsSound :
    (hash_token : Text → Text) (config : SessionConfig) (r : Request) (w : World)
    → IsSound w
    → IsSound (serve hash_token config r w)
unfolding serve Service.is_fresh Service.sign_out Service.revoke Service.revoke_others
    Service.revoke_all Service.list Store.delete_expired Store.delete_by_user_id
    Store.delete_by_user_id_except Store.list_by_user_id
serve-IsSound hash_token config (mint options) w h =
    create_session-KeepsSound hash_token config options w h
serve-IsSound hash_token config (step_up session evidence) w h =
    elevate_session-KeepsSound hash_token config session evidence w h
serve-IsSound hash_token config (resolve token) w h = verify-KeepsSound hash_token config token w h
serve-IsSound hash_token config (leave session) w h =
    bind-Keeps IsSound (Store.delete_by_id session.id session.user_id) _
      (delete_by_id-KeepsSound session.id session.user_id)
      (λ removed. removed-KeepsSound _ (pure tt) removed (λ w h. h)) w h
serve-IsSound hash_token config (test_fresh session) w h = h
serve-IsSound hash_token config (revoke session_id user_id) w h =
    bind-Keeps IsSound (Store.delete_by_id session_id user_id) _
      (delete_by_id-KeepsSound session_id user_id)
      (λ removed. removed-KeepsSound _ (fail not_found) removed (λ w h. h)) w h
serve-IsSound hash_token config (revoke_others user_id session_id) w h =
    bind-Keeps IsSound (Store.delete_by_user_id_except user_id session_id) _
      (persist-Keeps IsSound _ (Store.delete_rows (Store.is_other user_id session_id))
        (delete_rows-KeepsSound _) (λ w h. h))
      (λ count w h. h) w h
serve-IsSound hash_token config (revoke_all user_id) w h =
    bind-Keeps IsSound (Store.delete_by_user_id user_id) _
      (persist-Keeps IsSound _ (Store.delete_rows (Store.is_of user_id)) (delete_rows-KeepsSound _)
        (λ w h. h))
      (λ count w h. h) w h
serve-IsSound hash_token config (list user_id) w h =
    persist-Keeps IsSound _ (Store.select_listed user_id) (λ w h. h) (λ w h. h) w h
serve-IsSound hash_token config clean_up w h =
    persist-Keeps IsSound _ Store.delete_past
      (λ w h. delete_rows-KeepsSound (Store.is_past (w.clock w.reads)) w h) (λ w h. h) w h

pub serve_all : (Text → Text) → SessionConfig → List Request → World → World
serve_all hash_token config [] w = w
serve_all hash_token config (r ∷ rest) w =
    serve_all hash_token config rest (serve hash_token config r w)

-- After any requests, whatever fails, the ids and the digests of the session rows are distinct and
-- every stored level is the one that the stored log derives, if they were before.
pub serve_all-IsSound :
    (hash_token : Text → Text) (config : SessionConfig) (requests : List Request) (w : World)
    → IsSound w
    → IsSound (serve_all hash_token config requests w)
unfolding serve_all
serve_all-IsSound hash_token config [] w h = h
serve_all-IsSound hash_token config (r ∷ rest) w h =
    serve_all-IsSound hash_token config rest _ (serve-IsSound hash_token config r w h)
