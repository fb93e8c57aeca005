-- ===== src/TwoFactor/Devices.antt =====
-- src/two-factor/Store.ts: the remembered browsers.
use effect_auth.Prelude.{
  ℕ, Bool, not, ◌&&◌, ◌||◌, Option, List, [], ◌∷◌, ◌++◌, Text, text_eq, codes, ltb, leb, ◌==◌, any,
  filter, head?, if◌then◌else◌,
}
use effect_auth.Runtime.{World, Auth, TrustedDevice, ok, err, persistence, persist}
use effect_auth.Sql.{update_and_read, delete_and_count}
use effect_auth.Sessions.Store.{has_user}

abbrev pub device_clashes : TrustedDevice → List TrustedDevice → Bool
device_clashes device rows =
    any (λ row. row.id == device.id || row.token_hash == device.token_hash) rows

unfoldable pub create_device : TrustedDevice → Auth TrustedDevice
create_device device = persist (codes "TwoFactorStore.createDevice") (λ w.
    if device_clashes device w.trusted_devices || not (has_user device.user_id w.users)
    then (err (persistence (codes "TwoFactorStore.createDevice")), w)
    else (ok device, record w { trusted_devices = w.trusted_devices ++ device ∷ [] }))

abbrev pub is_live_token : Text → ℕ → TrustedDevice → Bool
is_live_token token_hash now row = row.token_hash == token_hash && ltb now row.expires_at

abbrev pub rotated : Text → ℕ → TrustedDevice → TrustedDevice
rotated next_hash now row = record row { token_hash = next_hash; last_used_at = now }

-- The unique index refuses a digest that another row has.
abbrev pub next_taken : Text → Text → ℕ → List TrustedDevice → Bool
next_taken token_hash next_hash now rows =
    any (is_live_token token_hash now) rows
    && any (λ row. not (is_live_token token_hash now row) && row.token_hash == next_hash) rows

unfoldable pub use_device : Text → Text → ℕ → Auth (Option TrustedDevice)
use_device token_hash next_hash now = persist (codes "TwoFactorStore.useDevice") (λ w.
    if next_taken token_hash next_hash now w.trusted_devices
    then (err (persistence (codes "TwoFactorStore.useDevice")), w)
    else (let (rows, written) =
          update_and_read (is_live_token token_hash now) (rotated next_hash now)
            w.trusted_devices in
        (ok (head? written), record w { trusted_devices = rows })))

abbrev pub is_live_of : Text → ℕ → TrustedDevice → Bool
is_live_of user_id now row = row.user_id == user_id && ltb now row.expires_at

-- `ORDER BY created_at DESC`
unfoldable pub insert_newest : TrustedDevice → List TrustedDevice → List TrustedDevice
insert_newest device [] = device ∷ []
insert_newest device (row ∷ rows) =
    let later = insert_newest device rows in
    if leb row.created_at device.created_at then device ∷ row ∷ rows else row ∷ later

unfoldable pub by_creation : List TrustedDevice → List TrustedDevice
by_creation [] = []
by_creation (row ∷ rows) = insert_newest row (by_creation rows)

unfoldable pub list_devices : Text → ℕ → Auth (List TrustedDevice)
list_devices user_id now =
    persist (codes "TwoFactorStore.listDevices")
      (λ w. (ok (by_creation (filter (is_live_of user_id now) w.trusted_devices)), w))

abbrev pub is_device_of : Text → Text → TrustedDevice → Bool
is_device_of id user_id row = row.id == id && row.user_id == user_id

abbrev pub delete_devices_where : (TrustedDevice → Bool) → World → ℕ × World
delete_devices_where p w =
    let (rows, gone) = delete_and_count p w.trusted_devices in
    (gone, record w { trusted_devices = rows })

unfoldable pub delete_device : Text → Text → Auth Bool
delete_device id user_id = persist (codes "TwoFactorStore.deleteDevice") (λ w.
    let (gone, w') = delete_devices_where (is_device_of id user_id) w in (ok (ltb 0 gone), w'))

unfoldable pub delete_devices : Text → Auth ℕ
delete_devices user_id =
    persist (codes "TwoFactorStore.deleteDevices") (λ w.
      let (gone, w') = delete_devices_where (λ row. row.user_id == user_id) w in (ok gone, w'))
