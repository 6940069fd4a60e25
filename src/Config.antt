-- ===== src/Config.antt =====
-- The settings that the services read: config/authora-config.ts and config/tenant-config.ts. What
-- SettingsService.get answers for a key is a parameter here, one configuration for all of Authora
-- and one for each tenant id that is asked for; only a read for the tenant '' can throw at its clients.
pub mod Names
pub mod Values
pub mod Updates
pub mod Entities
pub mod Decimal
pub mod Defaults
use authora.Prelude.{ℕ, String, Bool}
use authora.Model.{IntegrationMode, MfaPolicy}

pub record AuthoraConfig : Type 0 where
  pub hash_memory_cost : ℕ
  pub hash_time_cost : ℕ
  pub hash_parallelism : ℕ
  pub throttle_ttl_ms : ℕ
  pub throttle_origin_limit : ℕ
  pub throttle_identity_limit : ℕ
  pub throttle_combined_limit : ℕ
  pub endpoint_delay_min_ms : ℕ
  pub endpoint_delay_max_ms : ℕ
  pub auth_session_ttl_sec : ℕ
  pub ott_exchange_ttl_sec : ℕ
  pub super_admin_jwt_expiration_sec : ℕ

pub record TenantConfig : Type 0 where
  pub integration_mode : IntegrationMode
  pub authora_ui_base_url : String
  pub jwt_access_token_expiration_sec : ℕ
  pub jwt_refresh_token_short_expiration_sec : ℕ
  pub jwt_refresh_token_long_expiration_sec : ℕ
  pub primary_auth_max_attempts : ℕ
  pub primary_auth_cooldown_sec : ℕ
  pub primary_auth_lock_account_threshold : ℕ
  pub unlock_on_password_reset : Bool
  pub mfa_policy : MfaPolicy
  pub mfa_auth_max_attempts : ℕ
  pub mfa_auth_cooldown_sec : ℕ
  pub password_expiration_enabled : Bool
  pub password_max_age_sec : ℕ
  pub password_min_length : ℕ
  pub password_require_digit : Bool
  pub password_require_special_char : Bool
  pub password_require_lowercase : Bool
  pub password_require_uppercase : Bool
  pub password_forbid_sequential_chars : Bool
  pub password_forbid_repeated_chars : Bool
  pub password_forbid_keyboard_sequence : Bool
  pub password_forbid_user_info : Bool
  pub password_forbid_common_password : Bool
  pub trusted_device_ttl_sec : ℕ
  pub device_fingerprint_cookie_max_age_days : ℕ
  pub token_reuse_max_compromised_families : ℕ
  pub token_reuse_window_sec : ℕ
  pub ott_email_verification_ttl_sec : ℕ
  pub ott_account_deletion_ttl_sec : ℕ
  pub ott_multi_factor_auth_verify_ttl_sec : ℕ
  pub ott_multi_factor_auth_validate_ttl_sec : ℕ
  pub ott_multi_factor_auth_disabling_ttl_sec : ℕ
  pub ott_forgot_password_ttl_sec : ℕ
  pub ott_magic_link_ttl_sec : ℕ
  pub email_new_device_sign_in : Bool
  pub email_suspicious_activity : Bool
  pub email_account_locked : Bool
  pub email_mfa_setup : Bool
