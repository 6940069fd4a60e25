-- ===== src/Passwords.antt =====
-- service/entity-service/password-entity.service.ts, and the cron job of service/job.service.ts.
pub mod Current
use authora.Prelude.{
  ℕ, ◌+◌, ◌*◌, String, Bool, true, false, not, ◌&&◌, Option, none, some, List, [], ◌∷◌,
  if◌then◌else◌, ltb, leb, ◌==◌,
}
use authora.Model.{PasswordEntity, UserEntity, PasswordRevocationReason, changed, forgot_and_reset}
use authora.Exec.{
  Result, ok, err, tenant_not_found, of_result, pure, gets, modify, when, ◌>>=◌, ◌>>◌,
}
use authora.World.{Platform, Action, draw, time, read_without_tenant}
use authora.Hashing.{hash}
use authora.Config.{TenantConfig}

pub data PasswordVerifyResult : Type 0 where
  valid invalid expired : PasswordVerifyResult

-- `find((password) => !password.revoked)`
unfoldable pub current : List PasswordEntity → Option PasswordEntity
current [] = none
current (r ∷ rs) = let rest = current rs in if not r.revoked then some r else rest

abbrev pub revoked : ℕ → PasswordRevocationReason → PasswordEntity → PasswordEntity
revoked now reason r = record r {
  revoked = true;
  revocation_reason = some reason;
  revoked_at = some now;
}

-- whether the password is past the age that the settings allow
abbrev pub is_too_old : TenantConfig → ℕ → PasswordEntity → Bool
is_too_old config now r =
    config.password_expiration_enabled
    && ltb (r.created_at + config.password_max_age_sec * 1000) now

-- the end of `verifyUserPassword`; the settings are read for the tenant ''
abbrev pub judge_age : ℕ → PasswordEntity → Option TenantConfig → Result PasswordVerifyResult
judge_age now r none = err tenant_not_found
judge_age now r (some config) =
    if is_too_old config now r then ok PasswordVerifyResult.expired else ok valid

module _ (p : Platform) where
  -- `verifyUserPassword` at a time, over the passwords that were loaded with the user
  unfoldable pub check : ℕ → UserEntity → List PasswordEntity → String → Result PasswordVerifyResult
  unfolding current
  check now u loaded clear_password = elim (current loaded) [
    | none ↦ ok invalid
    | some r ↦
        if not (p.argon2_verify r.password_hash clear_password)
        then ok invalid
        else judge_age now r p.no_tenant
  ]

  -- one of `user.passwords` has this clear text
  unfoldable pub already_used : List PasswordEntity → String → Bool
  already_used [] clear_password = false
  already_used (r ∷ rs) clear_password =
      let rest = already_used rs clear_password in
      if p.argon2_verify r.password_hash clear_password then true else rest

module _ {p : Platform} where
  -- the relation `passwords` of a user, as `findByEmailWithPasswords` loads it
  unfoldable pub passwords_of : UserEntity → Action p (List PasswordEntity)
  passwords_of u = gets (λ w. p.passwords.find (λ r. r.user_id == u.id) (λ r. 0) w.passwords)

  unfoldable pub create_from_hash : UserEntity → String → Action p PasswordEntity
  create_from_hash u password_hash = do
    n ← draw
    now ← time
    let created : PasswordEntity = record {
      id = p.uuid n;
      user_id = u.id;
      password_hash = password_hash;
      revoked = false;
      revocation_reason = none;
      revoked_at = none;
      created_at = now;
    }
    modify (λ w. record w { passwords = p.passwords.insert created w.passwords })
    pure created

  unfoldable pub create : UserEntity → String → Action p PasswordEntity
  unfolding hash create_from_hash
  create u clear_password = do password_hash ← hash clear_password; create_from_hash u password_hash

  unfoldable pub verify_user_password :
      UserEntity → List PasswordEntity → String → Action p PasswordVerifyResult
  unfolding check
  verify_user_password u loaded clear_password = do
    now ← time
    of_result (check p now u loaded clear_password)

  unfoldable pub revoke : UserEntity → PasswordRevocationReason → Action p (Unit {0})
  revoke u reason = do
    now ← time
    modify (λ w. record w {
      passwords =
          p.passwords.update (λ r. r.user_id == u.id && not r.revoked) (revoked now reason)
            w.passwords;
    })

  unfoldable pub change_user_password : UserEntity → String → Action p PasswordEntity
  unfolding revoke create
  change_user_password u clear_password = do revoke u changed; create u clear_password

  unfoldable pub reset_user_password : UserEntity → String → Action p PasswordEntity
  unfolding revoke create
  reset_user_password u clear_password = do revoke u forgot_and_reset; create u clear_password

  -- `revokeExpiredPasswords`, over the tenant id ''
  unfoldable pub revoke_expired_passwords : Action p (Unit {0})
  revoke_expired_passwords = do
    now ← time
    config ← read_without_tenant
    when config.password_expiration_enabled (
        modify (λ w. record w {
          passwords =
              p.passwords.update
                (λ r. not r.revoked && leb (r.created_at + config.password_max_age_sec * 1000) now)
                (revoked now PasswordRevocationReason.expired) w.passwords;
        }))
