-- ===== src/SignIn/Lockout.antt =====
-- sign-in.service.ts and user-entity.service.ts: wrong passwords and locked accounts.
use authora.Prelude.{
  ◌+◌, ◌≤◌, ◌≡◌, refl, String, Bool, true, false, not, ◌&&◌, Option, none, some, [], ◌∷◌, select,
  arith, if◌then◌else◌, leb, Bool-cases, inl, inr, ◌==◌, All, All-map_each,
}
use authora.Model.{AuthSession, UserEntity, LockReason}
use authora.Exec.{ok, err, invalid_credentials}
use authora.Config.{TenantConfig}
use authora.World.{Platform, World}
use authora.Repository.Rows.{find_one-update}
use authora.Users.{password_failed, locked}
use authora.Users
use authora.Attempts
use authora.Passwords.{PasswordVerifyResult, check}
use authora.Sessions.{stored}
use authora.SignIn.{PasswordInput, primary_auth_password, refuse_if, judge_password}
use authora.SignIn.Gate.{get_session_lem}
use authora.SignIn.Password.{loaded_passwords, is_cooling}

-- the user's row, unless it is locked
abbrev pub is_open : String → UserEntity → Bool
is_open id r = r.id == id && not r.is_locked

module _ {p : Platform} where
  abbrev pub user_by_email : World p → String → Option UserEntity
  user_by_email w email = p.users.find_one (λ r. r.email == p.to_lower_case email) w.users

  -- In a stored session under its own id, `primaryAuthPassword` answers the email of a locked
  -- user by "invalid credentials" whatever the password is, and changes neither Redis, nor the
  -- users, nor the refresh tokens.
  pub locked_account_refused :
      (w : World p) (id : String) (dto : PasswordInput) (s : AuthSession) (u : UserEntity)
      → stored w id ≡ some s
      → s.id ≡ id
      → user_by_email w dto.email ≡ some u
      → u.is_locked ≡ true
      → let r = primary_auth_password id dto w in
        (r.0 ≡ err invalid_credentials)
        × (r.1.redis ≡ w.redis)
        × (r.1.users ≡ w.users)
        × (r.1.refresh_tokens ≡ w.refresh_tokens)
  unfolding primary_auth_password refuse_if Attempts.create
  locked_account_refused w id dto s u there same found shut =
      rw (get_session_lem w id s there same, primary_auth_password)
        (rw (found, primary_auth_password)
          (rw (shut, primary_auth_password) (refl, refl, refl, refl)))

  -- the world once a wrong password was counted
  abbrev pub counted : World p → UserEntity → World p
  counted w u = record w {
    users = p.users.update (λ r. r.id == u.id) (password_failed w.now) w.users;
  }

  record_failed_lem :
      (w : World p) (u : UserEntity)
      → select (λ r. r.id == u.id) (p.users.rows w.users) ≡ u ∷ []
      → Users.record_failed_password_attempt u w
        ≡ (ok (u.primary_failed_attempt_count + 1), counted w u)
  unfolding Users.record_failed_password_attempt
  record_failed_lem w u only =
      rw
        (find_one-update p.users (λ r. r.id == u.id) (password_failed w.now) w.users u only
          (λ x. refl))
        refl

  locked_rows :
      (w : World p) (u : UserEntity) (reason : LockReason)
      → u.lock_reason ≡ none
      → All (λ r. is_open u.id r ≡ false) (p.users.rows (Users.lock u reason w).1.users)
  unfolding Users.lock
  locked_rows w u reason fresh =
      rw (fresh, Users.lock)
        (rw (p.users.rows-update _ _ _) (All-map_each (λ r. is_open u.id r ≡ false) _ _ shut))
    where
      shut :
          (r : UserEntity)
          → is_open u.id (if r.id == u.id then locked w.now reason r else r) ≡ false
      shut r = elim (Bool-cases (r.id == u.id)) [
        | inl e ↦ rw e (ground arith)
        | inr e ↦ rw e (ground arith)
      ]

  lock_returns :
      (w : World p) (u : UserEntity) (reason : LockReason) → (Users.lock u reason w).0 ≡ ok tt
  unfolding Users.lock
  lock_returns w u reason = ground arith

  judge_invalid_lem :
      (w : World p) (s : AuthSession) (u : UserEntity) (dto : PasswordInput)
      → select (λ r. r.id == u.id) (p.users.rows w.users) ≡ u ∷ []
      → u.lock_reason ≡ none
      → (p.tenant s.tenant_id).primary_auth_lock_account_threshold
        ≤ u.primary_failed_attempt_count + 1
      → let r = judge_password s u dto PasswordVerifyResult.invalid w in
        (r.0 ≡ err invalid_credentials) × All (λ r. is_open u.id r ≡ false) (p.users.rows r.1.users)
  unfolding Attempts.create
  judge_invalid_lem w s u dto only fresh many =
      let over : leb (p.tenant s.tenant_id).primary_auth_lock_account_threshold
            (u.primary_failed_attempt_count + 1)
          ≡ true =
        ground arith in
      rw (record_failed_lem w u only) (
        rw over (
          rw (lock_returns (counted w u) u LockReason.too_many_attempts)
            (refl, locked_rows (counted w u) u LockReason.too_many_attempts fresh)))

  cooling_lem :
      (w : World p) (u : UserEntity) (config : TenantConfig)
      → p.no_tenant ≡ some config
      → Users.is_password_temporarily_locked u w ≡ (ok (is_cooling config w u), w)
  unfolding Users.is_password_temporarily_locked is_cooling
  cooling_lem w u config read = rw read refl

  -- Where the settings of the tenant '' can be read: in a stored session under its own id, for a
  -- user that has the email, is neither locked nor cooling down, is the only row with its id and
  -- has no lock reason: a wrong password that brings the wrong passwords in a row to the tenant's
  -- threshold is answered by "invalid credentials", and no row of the user is left unlocked.
  wrong_password_locks :
      (w : World p) (id : String) (dto : PasswordInput) (s : AuthSession) (u : UserEntity)
      (config : TenantConfig)
      → stored w id ≡ some s
      → s.id ≡ id
      → user_by_email w dto.email ≡ some u
      → u.is_locked ≡ false
      → p.no_tenant ≡ some config
      → is_cooling config w u ≡ false
      → check p w.now u (loaded_passwords w u) dto.password ≡ ok PasswordVerifyResult.invalid
      → select (λ r. r.id == u.id) (p.users.rows w.users) ≡ u ∷ []
      → u.lock_reason ≡ none
      → (p.tenant s.tenant_id).primary_auth_lock_account_threshold
        ≤ u.primary_failed_attempt_count + 1
      → let r = primary_auth_password id dto w in
        (r.0 ≡ err invalid_credentials) × All (λ r. is_open u.id r ≡ false) (p.users.rows r.1.users)
  unfolding primary_auth_password refuse_if
  wrong_password_locks w id dto s u config there same found unlocked read cool wrong only fresh
        many =
      rw (get_session_lem w id s there same, primary_auth_password)
        (rw (found, primary_auth_password)
          (rw (unlocked, primary_auth_password)
            (rw (cooling_lem w u config read, cool, primary_auth_password)
              (rw wrong (judge_invalid_lem w s u dto only fresh many)))))
