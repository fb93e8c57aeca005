-- ===== src/TwoFactor/Trusted.antt =====
-- When a trusted device stands in for a second factor.
use effect_auth.Prelude.{
  ℕ, suc, ◌<◌, ◌≡◌, refl, ap, subst, ◌∙◌, inl, inr, Bool, true, false, ◌&&◌, ◌==◌, Option, none,
  some, List, [], ◌∷◌, Memᴰ, Text, text_eq, text_eq_iff, arith, ltb→lt, filter, map, head?,
  Bool-cases, Option-cases,
}
use effect_auth.Assurance.{factor_eq}
use effect_auth.Runtime.{World, Result, TrustedDevice, ok, err-ne-ok, pure}
use effect_auth.Runtime.Steps.{bind-ok, ok_injective, some_injective}
use effect_auth.TwoFactor.Devices
use effect_auth.TwoFactor.Service.{Platform}
use effect_auth.TwoFactor.Trust.{Seal, Opened, open_device, device_hash}
use effect_auth.TwoFactor.Decider.{belongs_to, rotate, spend_opened, opened_cookie}

head_of_written :
    (p : TrustedDevice → Bool) (f : TrustedDevice → TrustedDevice) (rows : List TrustedDevice)
    (r : TrustedDevice)
    → head? (map f (filter p rows)) ≡ some r
    → (row : TrustedDevice) × Memᴰ row rows × (p row ≡ true) × (f row ≡ r)
head_of_written p f [] r h = absurd (cc)
head_of_written p f (row ∷ rows) r h = elim (Bool-cases (p row)) [
  | inl e ↦ (row, Memᴰ.head refl, e, some_injective (rw e at h))
  | inr e ↦
      let (found, m, q, is) = head_of_written p f rows r (rw e at h) in (found, Memᴰ.tail m, q, is)
]

use_device-ok :
    (token_hash next_hash : Text) (at : ℕ) (w after : World) (r : TrustedDevice)
    → Devices.use_device token_hash next_hash at w ≡ (ok (some r), after)
    → (row : TrustedDevice) × Memᴰ row w.trusted_devices
      × (Devices.is_live_token token_hash at row ≡ true)
      × (Devices.rotated next_hash at row ≡ r)
unfolding Devices.use_device
use_device-ok token_hash next_hash at w after r h = elim (Bool-cases (w.fault w.calls)) [
  | inl down ↦ absurd (err-ne-ok (rw down at h))
  | inr up ↦ elim (Bool-cases (Devices.next_taken token_hash next_hash at w.trusted_devices)) [
    | inl taken ↦ absurd (err-ne-ok (rw (up, taken) at h))
    | inr free ↦
        head_of_written (Devices.is_live_token token_hash at) (Devices.rotated next_hash at)
          w.trusted_devices r (ok_injective _ (some r) _ after (rw (up, free) at h))
  ]
]

and_left : (a b : Bool) → (a && b) ≡ true → a ≡ true
and_left a b h = ground arith

and_right : (a b : Bool) → (a && b) ≡ true → b ≡ true
and_right a b h = ground arith

never_proved : {x y : World} → ◌≡◌ {A = Result Bool × World} (ok false, x) (ok true, y) → ⊥
never_proved {x} {y} q = cc (ok_injective false true x y q)

module _ (platform : Platform) (seal : Seal) (presented : Option Text) where
  -- The browser presented the token of a device of the user, unexpired at the second reading of the
  -- clock, in a cookie that this deployment signed for the user.
  pub record IsTrusted (user_id : Text) (before : World) : Type 0 where
    pub cookie : Text
    pub token : Text
    pub row : TrustedDevice
    pub given : presented ≡ some cookie
    pub sealed : open_device seal cookie ≡ some (record { user_id = user_id; token = token })
    pub held : Memᴰ row before.trusted_devices
    pub digest : row.token_hash ≡ device_hash platform token
    pub owner : row.user_id ≡ user_id
    pub alive : before.clock (suc before.reads) < row.expires_at

  rotate-ok :
      (user_id : Text) (opened : Opened) (w after : World)
      → rotate platform seal presented user_id opened w ≡ (ok true, after)
      → (row : TrustedDevice) × Memᴰ row w.trusted_devices
        × (row.token_hash ≡ device_hash platform opened.token)
        × (row.user_id ≡ user_id)
        × (w.clock w.reads < row.expires_at)
  unfolding rotate
  rotate-ok user_id opened w after h =
      let ready = record w { drawn = suc w.drawn; reads = suc w.reads } in
      let one =
        bind-ok
          (Devices.use_device (device_hash platform opened.token)
            (device_hash platform (w.tokens w.drawn)) (w.clock w.reads))
          (λ rotated. pure (belongs_to user_id rotated)) ready true after h in
      found one.value one.between one.first (ok_injective _ true one.between after one.rest)
    where
      found :
          (rotated : Option TrustedDevice) (between : World)
          → Devices.use_device
              (device_hash platform opened.token)
              (device_hash platform (w.tokens w.drawn))
              (w.clock w.reads)
              (record w { drawn = suc w.drawn; reads = suc w.reads })
            ≡ (ok rotated, between)
          → belongs_to user_id rotated ≡ true
          → (row : TrustedDevice) × Memᴰ row w.trusted_devices
            × (row.token_hash ≡ device_hash platform opened.token)
            × (row.user_id ≡ user_id)
            × (w.clock w.reads < row.expires_at)
      found none between first owned = absurd (cc)
      found (some r) between first owned =
          let (row, m, live, is) =
            use_device-ok (device_hash platform opened.token)
              (device_hash platform (w.tokens w.drawn)) (w.clock w.reads)
              (record w { drawn = suc w.drawn; reads = suc w.reads }) between r first in
          let owner : row.user_id ≡ user_id =
            ap (λ (x : TrustedDevice). x.user_id) is ∙ (text_eq_iff r.user_id user_id).0 owned in
          let digest : row.token_hash ≡ device_hash platform opened.token =
            (text_eq_iff row.token_hash (device_hash platform opened.token)).0
              (and_left _ _ live) in
          (row, m, digest, owner, ltb→lt _ _ (and_right _ _ live))

  pub spend_opened-IsTrusted :
      (user_id : Text) (before w after : World)
      → w.trusted_devices ≡ before.trusted_devices
      → w.clock ≡ before.clock
      → w.reads ≡ suc before.reads
      → spend_opened platform seal presented user_id
          (opened_cookie platform seal presented presented)
          w
        ≡ (ok true, after)
      → IsTrusted user_id before
  spend_opened-IsTrusted user_id before w after rows clock reads h = elim (Option-cases presented) [
    | inl absent ↦ absurd (never_proved (rw absent at h))
    | inr (cookie, given) ↦ cookie_case cookie given
  ]
    where
      owned_case :
          (cookie : Text) (opened : Opened)
          → presented ≡ some cookie
          → open_device seal cookie ≡ some opened
          → spend_opened platform seal presented user_id (some opened) w ≡ (ok true, after)
          → IsTrusted user_id before
      owned_case cookie opened given sealed k = elim (Bool-cases (opened.user_id == user_id)) [
        | inr other ↦ absurd (never_proved (rw other at k))
        | inl own ↦
            let (row, m, digest, owner, alive) = rotate-ok user_id opened w after (rw own at k) in
            let same : opened.user_id ≡ user_id = (text_eq_iff opened.user_id user_id).0 own in
            record {
              cookie = cookie;
              token = opened.token;
              row = row;
              given = given;
              sealed =
                  sealed
                  ∙ ap
                      (λ u.
                        some (let o : Opened = record { user_id = u; token = opened.token } in o))
                      same;
              held = subst (λ l. Memᴰ row l) rows m;
              digest = digest;
              owner = owner;
              alive =
                  subst (λ n. before.clock n < row.expires_at) reads
                    (subst (λ (c : ℕ → ℕ). c w.reads < row.expires_at) clock alive);
            }
      ]

      cookie_case : (cookie : Text) → presented ≡ some cookie → IsTrusted user_id before
      cookie_case cookie given = elim (Option-cases (open_device seal cookie)) [
        | inl unsigned ↦ absurd (
            never_proved (
              subst (λ o. spend_opened platform seal presented user_id o w ≡ (ok true, after))
                (ap (opened_cookie platform seal presented) given ∙ unsigned) h))
        | inr (opened, sealed) ↦ owned_case cookie opened given sealed (
            subst (λ o. spend_opened platform seal presented user_id o w ≡ (ok true, after))
              (ap (opened_cookie platform seal presented) given ∙ sealed) h)
      ]
