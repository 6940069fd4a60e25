-- ===== src/Config/Defaults.antt =====
-- The default configurations of config/authora-config.ts and config/tenant-config.ts. The
-- environment's AUTHORA_UI_BASE_URL is an argument.
use authora.Prelude.{String, Option, true, false, or_else}
use authora.Model.{third_party, disabled}
use authora.Config.{AuthoraConfig, TenantConfig}

abbrev pub default_authora_config : AuthoraConfig
default_authora_config = record {
  hash_memory_cost = 65536;
  hash_time_cost = 3;
  hash_parallelism = 4;
  throttle_ttl_ms = 60000;
  throttle_origin_limit = 30;
  throttle_identity_limit = 10;
  throttle_combined_limit = 5;
  endpoint_delay_min_ms = 200;
  endpoint_delay_max_ms = 400;
  auth_session_ttl_sec = 600;
  ott_exchange_ttl_sec = 300;
  super_admin_jwt_expiration_sec = 3600;
}

abbrev pub default_tenant_config : Option String → TenantConfig
default_tenant_config ui_base_url = record {
  integration_mode = third_party;
  authora_ui_base_url = or_else ui_base_url "http://localhost:3000/ui";
  jwt_access_token_expiration_sec = 900;
  jwt_refresh_token_short_expiration_sec = 86400;
  jwt_refresh_token_long_expiration_sec = 2592000;
  primary_auth_max_attempts = 5;
  primary_auth_cooldown_sec = 900;
  primary_auth_lock_account_threshold = 10;
  unlock_on_password_reset = true;
  mfa_policy = disabled;
  mfa_auth_max_attempts = 3;
  mfa_auth_cooldown_sec = 300;
  password_expiration_enabled = false;
  password_max_age_sec = 5184000;
  password_min_length = 8;
  password_require_digit = true;
  password_require_special_char = true;
  password_require_lowercase = true;
  password_require_uppercase = true;
  password_forbid_sequential_chars = false;
  password_forbid_repeated_chars = false;
  password_forbid_keyboard_sequence = false;
  password_forbid_user_info = true;
  password_forbid_common_password = false;
  trusted_device_ttl_sec = 5184000;
  device_fingerprint_cookie_max_age_days = 365;
  token_reuse_max_compromised_families = 3;
  token_reuse_window_sec = 86400;
  ott_email_verification_ttl_sec = 86400;
  ott_account_deletion_ttl_sec = 3600;
  ott_multi_factor_auth_verify_ttl_sec = 86400;
  ott_multi_factor_auth_validate_ttl_sec = 86400;
  ott_multi_factor_auth_disabling_ttl_sec = 86400;
  ott_forgot_password_ttl_sec = 3600;
  ott_magic_link_ttl_sec = 300;
  email_new_device_sign_in = true;
  email_suspicious_activity = true;
  email_account_locked = true;
  email_mfa_setup = true;
}
