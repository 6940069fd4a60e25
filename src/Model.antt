-- ===== src/Model.antt =====
-- The data of entity/*.entity.ts and redis-model/*.ts: a record for each entity, with its columns,
-- and a data type for each enum. A relation to one user or tenant is that row's id. Dates are
-- milliseconds since the epoch, `null` and absent fields are `none`.
pub mod Equality
use authora.Prelude.{ℕ, String, Bool, Option, List}

pub data UserRole : Type 0 where
  user admin first_admin : UserRole

pub data LockReason : Type 0 where
  too_many_attempts admin_manual suspicious_activity : LockReason

pub record UserEntity : Type 0 where
  pub id : String
  pub tenant_id : String
  pub email : String
  pub role : UserRole
  pub is_locked : Bool
  pub locked_at : Option ℕ
  pub lock_reason : Option LockReason
  pub primary_failed_attempt_count : ℕ
  pub primary_last_failed_attempt_at : Option ℕ
  pub mfa_failed_attempt_count : ℕ
  pub mfa_last_failed_attempt_at : Option ℕ
  pub created_at : ℕ

pub data PasswordRevocationReason : Type 0 where
  forgot_and_reset expired admin_manual changed : PasswordRevocationReason

pub record PasswordEntity : Type 0 where
  pub id : String
  pub user_id : String
  pub password_hash : String
  pub revoked : Bool
  pub revocation_reason : Option PasswordRevocationReason
  pub revoked_at : Option ℕ
  pub created_at : ℕ

pub record RefreshTokenEntity : Type 0 where
  pub id : String
  pub user_id : String
  pub token_hash : String
  pub family : String
  pub jwt : String
  pub revoked : Bool
  pub expired_at : ℕ
  pub created_at : ℕ

pub record RegistrationEntity : Type 0 where
  pub id : String
  pub email : String
  pub tenant_id : String
  pub password_hash : String
  pub email_verification_token_hash : String
  pub email_verification_token_expires_at : ℕ
  pub created_at : ℕ

pub record TrustedDeviceEntity : Type 0 where
  pub id : String
  pub user_id : String
  pub fingerprint_hash : String
  pub name : String
  pub last_ip : String
  pub user_agent : String
  pub browser : String
  pub os : String
  pub device_type : String
  pub trusted : Bool
  pub trusted_until : Option ℕ
  pub first_seen_at : ℕ
  pub last_seen_at : ℕ
  pub created_at : ℕ

pub record MultiFactorAuthEntity : Type 0 where
  pub id : String
  pub user_id : String
  pub secret : String
  pub is_verified : Bool
  pub recovery_code_hashes : List String
  pub created_at : ℕ

pub data AuthFailureReason : Type 0 where
  invalid_password_auth account_locked too_many_attempts : AuthFailureReason
  password_expired invalid_mfa_auth too_many_mfa_attempts : AuthFailureReason

pub record SignInAttemptEntity : Type 0 where
  pub id : String
  pub user_id : String
  pub ip : String
  pub user_agent : String
  pub success : Bool
  pub failure_reason : Option AuthFailureReason
  pub created_at : ℕ

pub data IntegrationMode : Type 0 where
  first_party third_party hybrid : IntegrationMode

pub data MfaPolicy : Type 0 where
  required optional disabled : MfaPolicy

-- `app_id` is never written by the services.
pub record AuthSession : Type 0 where
  pub id : String
  pub tenant_id : String
  pub user_id : Option String
  pub mode : IntegrationMode
  pub device_fingerprint : Option String
  pub app_id : Option String
  pub code_challenge : Option String
  pub redirect_uri : Option String
  pub primary_auth_verified : Bool
  pub remember_me : Bool
  pub mfa_verified : Bool
  pub mfa_policy : MfaPolicy
  pub mfa_setup : Bool
  pub device_trusted : Bool
  pub exchanged : Bool
  pub created_at : ℕ
  pub expires_at : ℕ

pub data OneTimeTokenType : Type 0 where
  multi_factor_auth_verify multi_factor_auth_validate : OneTimeTokenType
  multi_factor_auth_disabling account_deletion forgot_password : OneTimeTokenType
  magic_link exchange : OneTimeTokenType
