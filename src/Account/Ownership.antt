-- ===== src/Account/Ownership.antt =====
-- account.service.ts: a user's hold on devices, and the deletion of an account.
use authora.Prelude.{
  ◌≡◌, ◌≢◌, refl, subst, ap, String, false, Option, none, some, arith, ◌==◌, eq_iff, All,
}
use authora.Model.{UserEntity, TrustedDeviceEntity, account_deletion}
use authora.Redis.Keys.{ott_key}
use authora.Exec.{
  ok, err, Result, >>=-eq-ok, or_throw-bind, device_not_found, account_deletion_not_found,
}
use authora.Repository.Rows.{none_removed}
use authora.World.{Platform, World}
use authora.Users
use authora.Tokens.{text_at, consume}
use authora.Tokens.Single.{consume-eq-ok_iff}
use authora.Account.{owned_by, distrust_device, delete_device, verify_delete_account}

not_owned :
    (u : UserEntity) (d : TrustedDeviceEntity) → d.user_id ≢ u.id → owned_by u (some d) ≡ none
not_owned u d other = ground (arith, other, eq_iff d.user_id u.id)

module _ {p : Platform} where
  abbrev pub device_row : World p → String → Option TrustedDeviceEntity
  device_row w id = p.devices.find_one (λ d. d.id == id) w.devices

  -- A user who names the device of another user is told that it does not exist, by both
  -- `distrustDevice` and `deleteDevice`, and nothing changes.
  pub others_device :
      (w : World p) (u : UserEntity) (id : String) (d : TrustedDeviceEntity)
      → device_row w id ≡ some d
      → d.user_id ≢ u.id
      → (distrust_device u id w ≡ (err device_not_found, w))
        × (delete_device u id w ≡ (err device_not_found, w))
  unfolding distrust_device delete_device
  others_device w u id d found other =
      let refused = not_owned u d other in
      (rw (found, distrust_device) (rw refused refl), rw (found, delete_device) (rw refused refl))

  -- A user who deletes an own device succeeds, and no device row with its id is left.
  pub own_device_deleted :
      (w : World p) (u : UserEntity) (id : String) (d : TrustedDeviceEntity)
      → device_row w id ≡ some d
      → d.user_id ≡ u.id
      → ((delete_device u id w).0 ≡ ok tt)
        × All (λ r. (r.id == id) ≡ false) (p.devices.rows (delete_device u id w).1.devices)
  unfolding delete_device
  own_device_deleted w u id d found own =
      let named : d.id ≡ id =
        (eq_iff d.id id).0 (p.devices.find_one-some (λ r. r.id == id) w.devices d found).0 in
      let mine : owned_by u (some d) ≡ some d = ground (arith, (eq_iff d.user_id u.id).1 own) in
      rw (found, delete_device)
        (rw (mine, delete_device)
          (
            refl,
            subst
                (λ i.
                  All (λ r. (r.id == i) ≡ false)
                    (p.devices.rows (p.devices.remove (λ r. r.id == d.id) w.devices)))
                named (none_removed p.devices (λ r. r.id == d.id) w.devices),
          ))

  -- No row of the user's is left in any table that belongs to users.
  pub record IsForgotten (u : UserEntity) (w : World p) : Type 0 where
    pub user : All (λ r. (r.id == u.id) ≡ false) (p.users.rows w.users)
    pub passwords : All (λ r. (r.user_id == u.id) ≡ false) (p.passwords.rows w.passwords)
    pub refresh_tokens :
        All (λ r. (r.user_id == u.id) ≡ false) (p.refresh_tokens.rows w.refresh_tokens)
    pub devices : All (λ r. (r.user_id == u.id) ≡ false) (p.devices.rows w.devices)
    pub mfas : All (λ r. (r.user_id == u.id) ≡ false) (p.mfas.rows w.mfas)
    pub attempts : All (λ r. (r.user_id == u.id) ≡ false) (p.attempts.rows w.attempts)

  delete-IsForgotten : (w : World p) (u : UserEntity) → IsForgotten u (Users.delete u w).1
  unfolding Users.delete
  delete-IsForgotten w u = record {
    user = none_removed p.users (λ r. r.id == u.id) w.users;
    passwords = none_removed p.passwords (λ r. r.user_id == u.id) w.passwords;
    refresh_tokens = none_removed p.refresh_tokens (λ r. r.user_id == u.id) w.refresh_tokens;
    devices = none_removed p.devices (λ r. r.user_id == u.id) w.devices;
    mfas = none_removed p.mfas (λ r. r.user_id == u.id) w.mfas;
    attempts = none_removed p.attempts (λ r. r.user_id == u.id) w.attempts;
  }

  -- A deletion is confirmed only with the deletion token that is stored for the user with the
  -- email, and leaves no row of that user among the users, passwords, refresh tokens, devices,
  -- second factors and sign-in attempts.
  pub verify_delete_account_sound :
      (w w' : World p) (email token : String)
      → verify_delete_account email token w ≡ (ok tt, w')
      → (u : UserEntity) × (p.users.find_one (λ r. r.email == p.to_lower_case email) w.users
          ≡ some u)
        × (text_at w (ott_key u.id account_deletion) ≡ some (p.sha256 token))
        × IsForgotten u w'
  unfolding verify_delete_account
  verify_delete_account_sound w w' email token h =
      let (u, found, h₁) =
        or_throw-bind account_deletion_not_found
          (p.users.find_one (λ r. r.email == p.to_lower_case email) w.users) _ w h in
      let (x, w₁, taken, h₂) = >>=-eq-ok (consume u.id token account_deletion) _ w h₁ in
      let accepted =
        (consume-eq-ok_iff w u.id token account_deletion).0
          (ap (λ (r : Result Unit × World p). r.0) taken) in
      (
        u,
        found,
        accepted,
        subst (IsForgotten u) (ap (λ (r : Result Unit × World p). r.1) h₂)
            (delete-IsForgotten w₁ u),
      )
