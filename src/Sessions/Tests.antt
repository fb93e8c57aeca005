-- ===== src/Sessions/Tests.antt =====
-- The session theorems at concrete requests.
use effect_auth.Prelude.{
  ◌+◌, ◌≡◌, ◌≢◌, ◌≤◌, ◌<◌, ◌-◌, ◌↔◌, ◌⊎◌, refl, true, false, none, some, List, [], ◌∷◌, Memᴰ, arith,
  length, codes, text_beq,
}
use effect_auth.Assurance.{aal1, aal2, knowledge, possession, derive_aal, live, AssurancePolicy}
use effect_auth.Runtime.{World, Session, User, ok, err, unauthorized}
use effect_auth.Runtime.Fixtures.{alice, bob, start, tagged}
use effect_auth.Sessions.{
  SessionConfig, Evidence, CreateOptions, CreatedSession, VerifiedSession, stamp_evidence,
  granted_lifetime, refresh_due_at, is_refresh_due, is_expired, considered, meets_assurance,
}
use effect_auth.Sessions.Store
use effect_auth.Sessions.Store.{find_user, find_joined, is_owned}
use effect_auth.Sessions.Service
use effect_auth.Sessions.Invariant.{IsWellFormed}
use effect_auth.Sessions.Requests.{
  Request, mint, step_up, resolve, revoke_all, IsSound, serve_all, serve_all-IsSound,
}
use effect_auth.Sessions.Verify.{Resolves, verify_sound}
use effect_auth.Sessions.StepUp.{verify-elevate}
use effect_auth.Sessions.Mint.{verify-create}
use effect_auth.Sessions.Revoke.{verify-revoke_all, revoke_others_exact}
use effect_auth.Sessions.Policy.{meets_assurance_mono, verify-lifetime}

abbrev config : SessionConfig
config = record {
  expires_in = 700;
  update_age = 100;
  fresh_age = 50;
  remember_me_disabled_expires_in = 200;
}

abbrev password : Evidence
password = record {
  method = codes "password";
  factor = knowledge;
  phishing_resistant = false;
  restricted = false;
  user_verified = none;
  completed_at = none;
}

abbrev totp : Evidence
totp = record password { method = codes "totp"; factor = possession }

abbrev sign_in : CreateOptions
sign_in = record {
  user_id = alice.id;
  ip_address = none;
  user_agent = none;
  remember_me = none;
  methods = some (password ∷ []);
  authenticated_at = none;
}

-- The row of the sign-in above.
abbrev row : Session
row = record {
  id = 105 ∷ 0 ∷ [];
  token_hash = tagged (116 ∷ 0 ∷ []);
  user_id = alice.id;
  expires_at = 1700;
  ip_address = none;
  user_agent = none;
  authenticated_at = 1000;
  aal = aal1;
  methods = stamp_evidence password 1000 ∷ [];
  remember_me = true;
  created_at = 1001;
  updated_at = 1002;
}

abbrev empty_IsWellFormed : IsWellFormed []
empty_IsWellFormed = record { ids = tt; digests = tt; levels = tt }

one_IsWellFormed : IsWellFormed (row ∷ [])
unfolding derive_aal live stamp_evidence
one_IsWellFormed = record { ids = (tt, tt); digests = (tt, tt); levels = (refl, tt) }

abbrev signed_in : World
signed_in = record start { sessions = row ∷ []; drawn = 1; minted = 1; reads = 3; calls = 1 }

abbrev minted : CreatedSession
minted = record { session = row; token = 116 ∷ 0 ∷ [] }

create_minted : Service.create tagged config sign_in start ≡ (ok minted, signed_in)
unfolding text_beq Service.create Store.create Store.insert_row derive_aal live stamp_evidence
create_minted = refl

abbrev requests : List Request
requests = mint sign_in ∷ step_up row totp ∷ resolve (116 ∷ 0 ∷ []) ∷ revoke_all alice.id ∷ []

serve_all-IsSound_example : IsSound (serve_all tagged config requests start)
serve_all-IsSound_example = serve_all-IsSound tagged config requests start empty_IsWellFormed

abbrev resolved : VerifiedSession
resolved = record { session = row; user = alice; refreshed = false }

verify_resolved : (Service.verify tagged config (116 ∷ 0 ∷ []) signed_in).0 ≡ ok resolved
unfolding text_beq Service.verify Service.judge Store.find_by_token_hash Store.select_joined
    find_joined find_user is_expired is_refresh_due refresh_due_at granted_lifetime
verify_resolved = refl

verify_sound_example : Resolves tagged config (116 ∷ 0 ∷ []) signed_in resolved
verify_sound_example =
    verify_sound tagged config (116 ∷ 0 ∷ []) signed_in resolved one_IsWellFormed verify_resolved

verify-create_example :
    (u : User) × (u.id ≡ alice.id)
    × ((Service.verify tagged config (116 ∷ 0 ∷ []) signed_in).0
        ≡ ok (record { session = row; user = u; refreshed = false }))
unfolding is_expired is_refresh_due refresh_due_at granted_lifetime
verify-create_example =
    verify-create tagged config sign_in start signed_in minted empty_IsWellFormed create_minted refl
      refl refl

abbrev late : World
late = record signed_in { clock = λ n. 9000 + n }

found_late : find_joined (tagged (116 ∷ 0 ∷ [])) late.sessions late.users ≡ some (row, alice)
unfolding text_beq find_joined find_user
found_late = refl

abbrev raised_row : Session
raised_row = record row {
  token_hash = tagged (116 ∷ 1 ∷ []);
  authenticated_at = 1003;
  aal = aal2;
  methods = stamp_evidence password 1000 ∷ stamp_evidence totp 1003 ∷ [];
  updated_at = 1004;
}

abbrev elevated : CreatedSession
elevated = record { session = raised_row; token = 116 ∷ 1 ∷ [] }

abbrev stepped_up : World
stepped_up = (Service.elevate tagged row totp signed_in).1

elevate_lem : Service.elevate tagged row totp signed_in ≡ (ok elevated, stepped_up)
unfolding text_beq Service.elevate Store.elevate Store.elevate_row Store.raise_row derive_aal live
    stamp_evidence
elevate_lem = refl

stepped_up-answers : stepped_up.fault stepped_up.calls ≡ false
unfolding text_beq Service.elevate Store.elevate Store.elevate_row Store.raise_row
stepped_up-answers = refl

verify-elevate_example :
    (Service.verify tagged config (116 ∷ 0 ∷ []) stepped_up).0 ≡ err unauthorized
verify-elevate_example =
    verify-elevate tagged config row row totp signed_in stepped_up elevated (116 ∷ 0 ∷ [])
      one_IsWellFormed (Memᴰ.head refl) refl elevate_lem refl (λ e. cc) stepped_up-answers

abbrev bobs_row : Session
bobs_row = record row { id = 105 ∷ 1 ∷ []; token_hash = tagged (116 ∷ 1 ∷ []); user_id = bob.id }

abbrev crowded : World
crowded = record signed_in { sessions = row ∷ bobs_row ∷ [] }

two_IsWellFormed : IsWellFormed (row ∷ bobs_row ∷ [])
unfolding derive_aal live stamp_evidence
two_IsWellFormed = record {
  ids = (((λ e. cc), tt), (tt, tt));
  digests = (((λ e. cc), tt), (tt, tt));
  levels = (refl, (refl, tt));
}

abbrev cleared : World
cleared = (Service.revoke_all alice.id crowded).1

cleared_lem : Service.revoke_all alice.id crowded ≡ (ok 1, cleared)
unfolding text_beq Service.revoke_all Store.delete_by_user_id Store.delete_rows
cleared_lem = refl

abbrev resolved_bob : VerifiedSession
resolved_bob = record { session = bobs_row; user = bob; refreshed = false }

verify_bob : (Service.verify tagged config (116 ∷ 1 ∷ []) cleared).0 ≡ ok resolved_bob
unfolding text_beq Service.revoke_all Store.delete_by_user_id Store.delete_rows Service.verify
    Service.judge Store.find_by_token_hash Store.select_joined find_joined find_user is_expired
    is_refresh_due refresh_due_at granted_lifetime
verify_bob = refl

verify-revoke_all_example : resolved_bob.session.user_id ≢ alice.id
verify-revoke_all_example =
    verify-revoke_all tagged config alice.id (116 ∷ 1 ∷ []) crowded cleared 1 resolved_bob
      two_IsWellFormed cleared_lem verify_bob

abbrev alone : World
alone = (Service.revoke_others alice.id (105 ∷ 7 ∷ []) crowded).1

alone_lem : Service.revoke_others alice.id (105 ∷ 7 ∷ []) crowded ≡ (ok 1, alone)
unfolding text_beq Service.revoke_others Store.delete_by_user_id_except Store.delete_rows
alone_lem = refl

revoke_others_exact_example :
    ((r : Session)
      → Memᴰ r alone.sessions
        ↔ (Memᴰ r crowded.sessions × ((r.user_id ≢ alice.id) ⊎ (r.id ≡ 105 ∷ 7 ∷ []))))
    × (length alone.sessions + 1 ≡ length crowded.sessions)
revoke_others_exact_example = revoke_others_exact alice.id (105 ∷ 7 ∷ []) crowded alone 1 alone_lem

abbrev strict : AssurancePolicy
strict = record { aal = some aal1; max_age = none; methods = none; allow_recovery = none }

strict_met : meets_assurance row strict 1010 ≡ true
unfolding meets_assurance considered derive_aal live stamp_evidence text_beq
strict_met = refl

meets_assurance_mono_example : meets_assurance raised_row strict 1005 ≡ true
meets_assurance_mono_example =
    meets_assurance_mono row raised_row (stamp_evidence totp 1003 ∷ []) strict 1010 1005 refl
      (omega arith) (omega arith) strict_met

-- A row that is due for a refresh.
abbrev later : World
later = record signed_in { clock = λ n. 1200 + n }

abbrev renewed : VerifiedSession
renewed = record {
  session = record row { expires_at = 1901; updated_at = 1204 };
  user = alice;
  refreshed = true;
}

verify_renewed : (Service.verify tagged config (116 ∷ 0 ∷ []) later).0 ≡ ok renewed
unfolding text_beq Service.verify Service.judge Store.find_by_token_hash Store.select_joined
    find_joined find_user is_expired is_refresh_due refresh_due_at granted_lifetime Service.refresh
    Store.touch Store.touch_row
verify_renewed = refl

positive : (s : Session) → Memᴰ s later.sessions → s.updated_at < s.expires_at
positive s (Memᴰ.head e) = rw e (omega arith)
positive s (Memᴰ.tail m) = elim m [ ]

verify-lifetime_example :
    (r : Session) × Memᴰ r later.sessions
    × (r.token_hash ≡ tagged (116 ∷ 0 ∷ []))
    × (r.id ≡ row.id)
    × (1901 - 1204 ≤ r.expires_at - r.updated_at)
    × (row.authenticated_at ≡ r.authenticated_at)
    × (row.remember_me ≡ r.remember_me)
verify-lifetime_example =
    verify-lifetime tagged config (116 ∷ 0 ∷ []) later renewed one_IsWellFormed positive
      (omega arith) verify_renewed

list-crowded : (Service.list alice.id crowded).0 ≡ ok (row ∷ [])
unfolding text_beq Service.list Store.list_by_user_id Store.select_listed Store.newest_first
    Store.insert_ordered
list-crowded = refl
