-- ===== src/Users.antt =====
-- service/entity-service/user-entity.service.ts, with the escalation of lock reasons of
-- entity/user.entity.ts.
use authora.Prelude.{
  ℕ, ◌+◌, ◌*◌, String, Bool, true, false, not, ◌&&◌, Option, none, some, if◌then◌else◌, ltb, leb,
  or_else, ◌==◌, is_some,
}
use authora.Model.{
  UserEntity, UserRole, user, LockReason, too_many_attempts, admin_manual, suspicious_activity,
}
use authora.Exec.{pure, throw, gets, modify, ◌>>=◌, ◌>>◌, type_error}
use authora.World.{Platform, Action, draw, time, read_without_tenant}

abbrev pub severity : LockReason → ℕ
severity too_many_attempts = 1
severity admin_manual = 2
severity suspicious_activity = 3

unfoldable pub is_lock_reason_escalation : Option LockReason → LockReason → Bool
is_lock_reason_escalation none next = true
is_lock_reason_escalation (some current) next = ltb (severity current) (severity next)

unfoldable pub is_cooldown_expired : ℕ → Option ℕ → ℕ → Bool
is_cooldown_expired now none cooldown_sec = true
is_cooldown_expired now (some last_failed_at) cooldown_sec =
    leb (last_failed_at + cooldown_sec * 1000) now

-- The patches of the updates.
abbrev pub locked : ℕ → LockReason → UserEntity → UserEntity
locked now reason u = record u { is_locked = true; locked_at = some now; lock_reason = some reason }

abbrev pub unlocked : UserEntity → UserEntity
unlocked u = record u { is_locked = false; locked_at = none; lock_reason = none }

abbrev pub password_failed : ℕ → UserEntity → UserEntity
password_failed now u = record u {
  primary_failed_attempt_count = u.primary_failed_attempt_count + 1;
  primary_last_failed_attempt_at = some now;
}

abbrev pub password_reset : UserEntity → UserEntity
password_reset u = record u {
  primary_failed_attempt_count = 0;
  primary_last_failed_attempt_at = none;
}

abbrev pub mfa_failed : ℕ → UserEntity → UserEntity
mfa_failed now u = record u {
  mfa_failed_attempt_count = u.mfa_failed_attempt_count + 1;
  mfa_last_failed_attempt_at = some now;
}

abbrev pub mfa_reset : UserEntity → UserEntity
mfa_reset u = record u { mfa_failed_attempt_count = 0; mfa_last_failed_attempt_at = none }

module _ {p : Platform} where
  -- `update(id, patch)`
  abbrev pub update_user : String → (UserEntity → UserEntity) → Action p (Unit {0})
  update_user id patch =
      modify (λ w. record w { users = p.users.update (λ u. u.id == id) patch w.users })

  unfoldable pub create : String → String → Option UserRole → Action p UserEntity
  create email tenant_id role = do
    n ← draw
    now ← time
    let created : UserEntity = record {
      id = p.uuid n;
      tenant_id = tenant_id;
      email = email;
      role = or_else role user;
      is_locked = false;
      locked_at = none;
      lock_reason = none;
      primary_failed_attempt_count = 0;
      primary_last_failed_attempt_at = none;
      mfa_failed_attempt_count = 0;
      mfa_last_failed_attempt_at = none;
      created_at = now;
    }
    modify (λ w. record w { users = p.users.insert created w.users })
    pure created

  unfoldable pub find_by_id : String → Action p (Option UserEntity)
  find_by_id id = gets (λ w. p.users.find_one (λ u. u.id == id) w.users)

  unfoldable pub find_by_email : String → Action p (Option UserEntity)
  find_by_email email = gets (λ w. p.users.find_one (λ u. u.email == email) w.users)

  unfoldable pub exists_by_email : String → String → Action p Bool
  exists_by_email email tenant_id =
      gets (λ w.
        is_some (p.users.find_one (λ u. u.email == email && u.tenant_id == tenant_id) w.users))

  unfoldable pub lock : UserEntity → LockReason → Action p (Unit {0})
  unfolding is_lock_reason_escalation
  lock u reason =
      if not (is_lock_reason_escalation u.lock_reason reason)
      then pure tt
      else do now ← time; update_user u.id (locked now reason)

  unfoldable pub unlock : UserEntity → Action p (Unit {0})
  unlock u = update_user u.id unlocked

  -- `RETURNING primary_failed_attempt_count`; `result.raw[0]` is undefined if no row matched.
  unfoldable pub record_failed_password_attempt : UserEntity → Action p ℕ
  unfolding find_by_id
  record_failed_password_attempt u = do
    now ← time
    update_user u.id (password_failed now)
    row ← find_by_id u.id
    elim row [ none ↦ throw type_error | some r ↦ pure r.primary_failed_attempt_count ]

  unfoldable pub is_password_temporarily_locked : UserEntity → Action p Bool
  unfolding is_cooldown_expired
  is_password_temporarily_locked u = do
    config ← read_without_tenant
    now ← time
    pure (
        leb config.primary_auth_max_attempts u.primary_failed_attempt_count
        && not (
            is_cooldown_expired now u.primary_last_failed_attempt_at
              config.primary_auth_cooldown_sec))

  unfoldable pub reset_password_attempts : UserEntity → Action p (Unit {0})
  reset_password_attempts u = update_user u.id password_reset

  unfoldable pub record_failed_mfa_attempt : UserEntity → Action p ℕ
  unfolding find_by_id
  record_failed_mfa_attempt u = do
    now ← time
    update_user u.id (mfa_failed now)
    row ← find_by_id u.id
    elim row [ none ↦ throw type_error | some r ↦ pure r.mfa_failed_attempt_count ]

  unfoldable pub is_mfa_temporarily_locked : UserEntity → Action p Bool
  unfolding is_cooldown_expired
  is_mfa_temporarily_locked u = do
    config ← read_without_tenant
    now ← time
    pure (
        leb config.mfa_auth_max_attempts u.mfa_failed_attempt_count
        && not (is_cooldown_expired now u.mfa_last_failed_attempt_at config.mfa_auth_cooldown_sec))

  unfoldable pub reset_mfa_attempts : UserEntity → Action p (Unit {0})
  reset_mfa_attempts u = update_user u.id mfa_reset

  -- `remove(user)`; the entities with `onDelete: 'CASCADE'` lose their rows of the user too.
  unfoldable pub delete : UserEntity → Action p (Unit {0})
  delete u = modify (λ w. record w {
    users = p.users.remove (λ r. r.id == u.id) w.users;
    passwords = p.passwords.remove (λ r. r.user_id == u.id) w.passwords;
    refresh_tokens = p.refresh_tokens.remove (λ r. r.user_id == u.id) w.refresh_tokens;
    devices = p.devices.remove (λ r. r.user_id == u.id) w.devices;
    mfas = p.mfas.remove (λ r. r.user_id == u.id) w.mfas;
    attempts = p.attempts.remove (λ r. r.user_id == u.id) w.attempts;
  })
