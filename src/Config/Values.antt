-- ===== src/Config/Values.antt =====
-- The values of the settings by key: what `config[key]` reads, and what an update of the column `key`
-- leaves. `SettingValue` is the JavaScript value of a setting, where an enum is its text.
use authora.Prelude.{ℕ, String, Bool, ◌≡◌, refl, if◌then◌else◌}
use authora.Model.{
  IntegrationMode, first_party, third_party, hybrid, MfaPolicy, required, optional, disabled,
}
use authora.Config.{AuthoraConfig, TenantConfig}
use authora.Config.Names.{AuthoraSetting, TenantSetting, same_authora, same_tenant}

pub data SettingValue : Type 0 where
  flag_value : Bool → SettingValue
  number_value : ℕ → SettingValue
  not_a_number : SettingValue
  text_value : String → SettingValue

-- `typeof`
pub data JsType : Type 0 where
  boolean number string : JsType

abbrev pub type_of : SettingValue → JsType
type_of (flag_value b) = boolean
type_of (number_value n) = number
type_of not_a_number = number
type_of (text_value s) = string

abbrev pub mode_text : IntegrationMode → String
mode_text first_party = "FIRST_PARTY"
mode_text third_party = "THIRD_PARTY"
mode_text hybrid = "HYBRID"

abbrev pub policy_text : MfaPolicy → String
policy_text required = "REQUIRED"
policy_text optional = "OPTIONAL"
policy_text disabled = "DISABLED"

-- `active[key]`, and the configuration that has given values
abbrev pub authora_field : AuthoraConfig → AuthoraSetting → ℕ
authora_field c AuthoraSetting.hash_memory_cost = c.hash_memory_cost
authora_field c AuthoraSetting.hash_time_cost = c.hash_time_cost
authora_field c AuthoraSetting.hash_parallelism = c.hash_parallelism
authora_field c AuthoraSetting.throttle_ttl_ms = c.throttle_ttl_ms
authora_field c AuthoraSetting.throttle_origin_limit = c.throttle_origin_limit
authora_field c AuthoraSetting.throttle_identity_limit = c.throttle_identity_limit
authora_field c AuthoraSetting.throttle_combined_limit = c.throttle_combined_limit
authora_field c AuthoraSetting.endpoint_delay_min_ms = c.endpoint_delay_min_ms
authora_field c AuthoraSetting.endpoint_delay_max_ms = c.endpoint_delay_max_ms
authora_field c AuthoraSetting.auth_session_ttl_sec = c.auth_session_ttl_sec
authora_field c AuthoraSetting.ott_exchange_ttl_sec = c.ott_exchange_ttl_sec
authora_field c AuthoraSetting.super_admin_jwt_expiration_sec = c.super_admin_jwt_expiration_sec

abbrev pub authora_from : (AuthoraSetting → ℕ) → AuthoraConfig
authora_from f = record {
  hash_memory_cost = f AuthoraSetting.hash_memory_cost;
  hash_time_cost = f AuthoraSetting.hash_time_cost;
  hash_parallelism = f AuthoraSetting.hash_parallelism;
  throttle_ttl_ms = f AuthoraSetting.throttle_ttl_ms;
  throttle_origin_limit = f AuthoraSetting.throttle_origin_limit;
  throttle_identity_limit = f AuthoraSetting.throttle_identity_limit;
  throttle_combined_limit = f AuthoraSetting.throttle_combined_limit;
  endpoint_delay_min_ms = f AuthoraSetting.endpoint_delay_min_ms;
  endpoint_delay_max_ms = f AuthoraSetting.endpoint_delay_max_ms;
  auth_session_ttl_sec = f AuthoraSetting.auth_session_ttl_sec;
  ott_exchange_ttl_sec = f AuthoraSetting.ott_exchange_ttl_sec;
  super_admin_jwt_expiration_sec = f AuthoraSetting.super_admin_jwt_expiration_sec;
}

pub authora_field-from :
    (f : AuthoraSetting → ℕ) (k : AuthoraSetting) → authora_field (authora_from f) k ≡ f k
authora_field-from f AuthoraSetting.hash_memory_cost = refl
authora_field-from f AuthoraSetting.hash_time_cost = refl
authora_field-from f AuthoraSetting.hash_parallelism = refl
authora_field-from f AuthoraSetting.throttle_ttl_ms = refl
authora_field-from f AuthoraSetting.throttle_origin_limit = refl
authora_field-from f AuthoraSetting.throttle_identity_limit = refl
authora_field-from f AuthoraSetting.throttle_combined_limit = refl
authora_field-from f AuthoraSetting.endpoint_delay_min_ms = refl
authora_field-from f AuthoraSetting.endpoint_delay_max_ms = refl
authora_field-from f AuthoraSetting.auth_session_ttl_sec = refl
authora_field-from f AuthoraSetting.ott_exchange_ttl_sec = refl
authora_field-from f AuthoraSetting.super_admin_jwt_expiration_sec = refl

abbrev pub authora_value : AuthoraConfig → AuthoraSetting → SettingValue
authora_value c k = number_value (authora_field c k)

-- `{ [k]: value }` as a patch
abbrev pub put_authora : AuthoraSetting → ℕ → AuthoraConfig → AuthoraConfig
put_authora k v c = authora_from (λ j. if same_authora k j then v else authora_field c j)

-- the type of a setting's value in TenantConfig
pub data Kind : Type 0 where
  flag_kind number_kind text_kind mode_kind policy_kind : Kind

abbrev pub Typed : Kind → Type 0
Typed flag_kind = Bool
Typed number_kind = ℕ
Typed text_kind = String
Typed mode_kind = IntegrationMode
Typed policy_kind = MfaPolicy

abbrev pub untyped : (κ : Kind) → Typed κ → SettingValue
untyped flag_kind b = flag_value b
untyped number_kind n = number_value n
untyped text_kind s = text_value s
untyped mode_kind m = text_value (mode_text m)
untyped policy_kind m = text_value (policy_text m)

abbrev pub kind : TenantSetting → Kind
kind TenantSetting.integration_mode = mode_kind
kind TenantSetting.authora_ui_base_url = text_kind
kind TenantSetting.jwt_access_token_expiration_sec = number_kind
kind TenantSetting.jwt_refresh_token_short_expiration_sec = number_kind
kind TenantSetting.jwt_refresh_token_long_expiration_sec = number_kind
kind TenantSetting.primary_auth_max_attempts = number_kind
kind TenantSetting.primary_auth_cooldown_sec = number_kind
kind TenantSetting.primary_auth_lock_account_threshold = number_kind
kind TenantSetting.unlock_on_password_reset = flag_kind
kind TenantSetting.mfa_policy = policy_kind
kind TenantSetting.mfa_auth_max_attempts = number_kind
kind TenantSetting.mfa_auth_cooldown_sec = number_kind
kind TenantSetting.password_expiration_enabled = flag_kind
kind TenantSetting.password_max_age_sec = number_kind
kind TenantSetting.password_min_length = number_kind
kind TenantSetting.password_require_digit = flag_kind
kind TenantSetting.password_require_special_char = flag_kind
kind TenantSetting.password_require_lowercase = flag_kind
kind TenantSetting.password_require_uppercase = flag_kind
kind TenantSetting.password_forbid_sequential_chars = flag_kind
kind TenantSetting.password_forbid_repeated_chars = flag_kind
kind TenantSetting.password_forbid_keyboard_sequence = flag_kind
kind TenantSetting.password_forbid_user_info = flag_kind
kind TenantSetting.password_forbid_common_password = flag_kind
kind TenantSetting.trusted_device_ttl_sec = number_kind
kind TenantSetting.device_fingerprint_cookie_max_age_days = number_kind
kind TenantSetting.token_reuse_max_compromised_families = number_kind
kind TenantSetting.token_reuse_window_sec = number_kind
kind TenantSetting.ott_email_verification_ttl_sec = number_kind
kind TenantSetting.ott_account_deletion_ttl_sec = number_kind
kind TenantSetting.ott_multi_factor_auth_verify_ttl_sec = number_kind
kind TenantSetting.ott_multi_factor_auth_validate_ttl_sec = number_kind
kind TenantSetting.ott_multi_factor_auth_disabling_ttl_sec = number_kind
kind TenantSetting.ott_forgot_password_ttl_sec = number_kind
kind TenantSetting.ott_magic_link_ttl_sec = number_kind
kind TenantSetting.email_new_device_sign_in = flag_kind
kind TenantSetting.email_suspicious_activity = flag_kind
kind TenantSetting.email_account_locked = flag_kind
kind TenantSetting.email_mfa_setup = flag_kind

abbrev pub TenantSettingValue : TenantSetting → Type 0
TenantSettingValue k = Typed (kind k)

abbrev pub tenant_field : TenantConfig → (k : TenantSetting) → TenantSettingValue k
tenant_field c TenantSetting.integration_mode = c.integration_mode
tenant_field c TenantSetting.authora_ui_base_url = c.authora_ui_base_url
tenant_field c TenantSetting.jwt_access_token_expiration_sec = c.jwt_access_token_expiration_sec
tenant_field c TenantSetting.jwt_refresh_token_short_expiration_sec =
    c.jwt_refresh_token_short_expiration_sec
tenant_field c TenantSetting.jwt_refresh_token_long_expiration_sec =
    c.jwt_refresh_token_long_expiration_sec
tenant_field c TenantSetting.primary_auth_max_attempts = c.primary_auth_max_attempts
tenant_field c TenantSetting.primary_auth_cooldown_sec = c.primary_auth_cooldown_sec
tenant_field c TenantSetting.primary_auth_lock_account_threshold =
    c.primary_auth_lock_account_threshold
tenant_field c TenantSetting.unlock_on_password_reset = c.unlock_on_password_reset
tenant_field c TenantSetting.mfa_policy = c.mfa_policy
tenant_field c TenantSetting.mfa_auth_max_attempts = c.mfa_auth_max_attempts
tenant_field c TenantSetting.mfa_auth_cooldown_sec = c.mfa_auth_cooldown_sec
tenant_field c TenantSetting.password_expiration_enabled = c.password_expiration_enabled
tenant_field c TenantSetting.password_max_age_sec = c.password_max_age_sec
tenant_field c TenantSetting.password_min_length = c.password_min_length
tenant_field c TenantSetting.password_require_digit = c.password_require_digit
tenant_field c TenantSetting.password_require_special_char = c.password_require_special_char
tenant_field c TenantSetting.password_require_lowercase = c.password_require_lowercase
tenant_field c TenantSetting.password_require_uppercase = c.password_require_uppercase
tenant_field c TenantSetting.password_forbid_sequential_chars = c.password_forbid_sequential_chars
tenant_field c TenantSetting.password_forbid_repeated_chars = c.password_forbid_repeated_chars
tenant_field c TenantSetting.password_forbid_keyboard_sequence = c.password_forbid_keyboard_sequence
tenant_field c TenantSetting.password_forbid_user_info = c.password_forbid_user_info
tenant_field c TenantSetting.password_forbid_common_password = c.password_forbid_common_password
tenant_field c TenantSetting.trusted_device_ttl_sec = c.trusted_device_ttl_sec
tenant_field c TenantSetting.device_fingerprint_cookie_max_age_days =
    c.device_fingerprint_cookie_max_age_days
tenant_field c TenantSetting.token_reuse_max_compromised_families =
    c.token_reuse_max_compromised_families
tenant_field c TenantSetting.token_reuse_window_sec = c.token_reuse_window_sec
tenant_field c TenantSetting.ott_email_verification_ttl_sec = c.ott_email_verification_ttl_sec
tenant_field c TenantSetting.ott_account_deletion_ttl_sec = c.ott_account_deletion_ttl_sec
tenant_field c TenantSetting.ott_multi_factor_auth_verify_ttl_sec =
    c.ott_multi_factor_auth_verify_ttl_sec
tenant_field c TenantSetting.ott_multi_factor_auth_validate_ttl_sec =
    c.ott_multi_factor_auth_validate_ttl_sec
tenant_field c TenantSetting.ott_multi_factor_auth_disabling_ttl_sec =
    c.ott_multi_factor_auth_disabling_ttl_sec
tenant_field c TenantSetting.ott_forgot_password_ttl_sec = c.ott_forgot_password_ttl_sec
tenant_field c TenantSetting.ott_magic_link_ttl_sec = c.ott_magic_link_ttl_sec
tenant_field c TenantSetting.email_new_device_sign_in = c.email_new_device_sign_in
tenant_field c TenantSetting.email_suspicious_activity = c.email_suspicious_activity
tenant_field c TenantSetting.email_account_locked = c.email_account_locked
tenant_field c TenantSetting.email_mfa_setup = c.email_mfa_setup

abbrev pub tenant_from : ((k : TenantSetting) → TenantSettingValue k) → TenantConfig
tenant_from f = record {
  integration_mode = f TenantSetting.integration_mode;
  authora_ui_base_url = f TenantSetting.authora_ui_base_url;
  jwt_access_token_expiration_sec = f TenantSetting.jwt_access_token_expiration_sec;
  jwt_refresh_token_short_expiration_sec = f TenantSetting.jwt_refresh_token_short_expiration_sec;
  jwt_refresh_token_long_expiration_sec = f TenantSetting.jwt_refresh_token_long_expiration_sec;
  primary_auth_max_attempts = f TenantSetting.primary_auth_max_attempts;
  primary_auth_cooldown_sec = f TenantSetting.primary_auth_cooldown_sec;
  primary_auth_lock_account_threshold = f TenantSetting.primary_auth_lock_account_threshold;
  unlock_on_password_reset = f TenantSetting.unlock_on_password_reset;
  mfa_policy = f TenantSetting.mfa_policy;
  mfa_auth_max_attempts = f TenantSetting.mfa_auth_max_attempts;
  mfa_auth_cooldown_sec = f TenantSetting.mfa_auth_cooldown_sec;
  password_expiration_enabled = f TenantSetting.password_expiration_enabled;
  password_max_age_sec = f TenantSetting.password_max_age_sec;
  password_min_length = f TenantSetting.password_min_length;
  password_require_digit = f TenantSetting.password_require_digit;
  password_require_special_char = f TenantSetting.password_require_special_char;
  password_require_lowercase = f TenantSetting.password_require_lowercase;
  password_require_uppercase = f TenantSetting.password_require_uppercase;
  password_forbid_sequential_chars = f TenantSetting.password_forbid_sequential_chars;
  password_forbid_repeated_chars = f TenantSetting.password_forbid_repeated_chars;
  password_forbid_keyboard_sequence = f TenantSetting.password_forbid_keyboard_sequence;
  password_forbid_user_info = f TenantSetting.password_forbid_user_info;
  password_forbid_common_password = f TenantSetting.password_forbid_common_password;
  trusted_device_ttl_sec = f TenantSetting.trusted_device_ttl_sec;
  device_fingerprint_cookie_max_age_days = f TenantSetting.device_fingerprint_cookie_max_age_days;
  token_reuse_max_compromised_families = f TenantSetting.token_reuse_max_compromised_families;
  token_reuse_window_sec = f TenantSetting.token_reuse_window_sec;
  ott_email_verification_ttl_sec = f TenantSetting.ott_email_verification_ttl_sec;
  ott_account_deletion_ttl_sec = f TenantSetting.ott_account_deletion_ttl_sec;
  ott_multi_factor_auth_verify_ttl_sec = f TenantSetting.ott_multi_factor_auth_verify_ttl_sec;
  ott_multi_factor_auth_validate_ttl_sec = f TenantSetting.ott_multi_factor_auth_validate_ttl_sec;
  ott_multi_factor_auth_disabling_ttl_sec = f TenantSetting.ott_multi_factor_auth_disabling_ttl_sec;
  ott_forgot_password_ttl_sec = f TenantSetting.ott_forgot_password_ttl_sec;
  ott_magic_link_ttl_sec = f TenantSetting.ott_magic_link_ttl_sec;
  email_new_device_sign_in = f TenantSetting.email_new_device_sign_in;
  email_suspicious_activity = f TenantSetting.email_suspicious_activity;
  email_account_locked = f TenantSetting.email_account_locked;
  email_mfa_setup = f TenantSetting.email_mfa_setup;
}

pub tenant_field-from :
    (f : (k : TenantSetting) → TenantSettingValue k) (k : TenantSetting)
    → tenant_field (tenant_from f) k ≡ f k
tenant_field-from f TenantSetting.integration_mode = refl
tenant_field-from f TenantSetting.authora_ui_base_url = refl
tenant_field-from f TenantSetting.jwt_access_token_expiration_sec = refl
tenant_field-from f TenantSetting.jwt_refresh_token_short_expiration_sec = refl
tenant_field-from f TenantSetting.jwt_refresh_token_long_expiration_sec = refl
tenant_field-from f TenantSetting.primary_auth_max_attempts = refl
tenant_field-from f TenantSetting.primary_auth_cooldown_sec = refl
tenant_field-from f TenantSetting.primary_auth_lock_account_threshold = refl
tenant_field-from f TenantSetting.unlock_on_password_reset = refl
tenant_field-from f TenantSetting.mfa_policy = refl
tenant_field-from f TenantSetting.mfa_auth_max_attempts = refl
tenant_field-from f TenantSetting.mfa_auth_cooldown_sec = refl
tenant_field-from f TenantSetting.password_expiration_enabled = refl
tenant_field-from f TenantSetting.password_max_age_sec = refl
tenant_field-from f TenantSetting.password_min_length = refl
tenant_field-from f TenantSetting.password_require_digit = refl
tenant_field-from f TenantSetting.password_require_special_char = refl
tenant_field-from f TenantSetting.password_require_lowercase = refl
tenant_field-from f TenantSetting.password_require_uppercase = refl
tenant_field-from f TenantSetting.password_forbid_sequential_chars = refl
tenant_field-from f TenantSetting.password_forbid_repeated_chars = refl
tenant_field-from f TenantSetting.password_forbid_keyboard_sequence = refl
tenant_field-from f TenantSetting.password_forbid_user_info = refl
tenant_field-from f TenantSetting.password_forbid_common_password = refl
tenant_field-from f TenantSetting.trusted_device_ttl_sec = refl
tenant_field-from f TenantSetting.device_fingerprint_cookie_max_age_days = refl
tenant_field-from f TenantSetting.token_reuse_max_compromised_families = refl
tenant_field-from f TenantSetting.token_reuse_window_sec = refl
tenant_field-from f TenantSetting.ott_email_verification_ttl_sec = refl
tenant_field-from f TenantSetting.ott_account_deletion_ttl_sec = refl
tenant_field-from f TenantSetting.ott_multi_factor_auth_verify_ttl_sec = refl
tenant_field-from f TenantSetting.ott_multi_factor_auth_validate_ttl_sec = refl
tenant_field-from f TenantSetting.ott_multi_factor_auth_disabling_ttl_sec = refl
tenant_field-from f TenantSetting.ott_forgot_password_ttl_sec = refl
tenant_field-from f TenantSetting.ott_magic_link_ttl_sec = refl
tenant_field-from f TenantSetting.email_new_device_sign_in = refl
tenant_field-from f TenantSetting.email_suspicious_activity = refl
tenant_field-from f TenantSetting.email_account_locked = refl
tenant_field-from f TenantSetting.email_mfa_setup = refl

abbrev pub tenant_value : TenantConfig → TenantSetting → SettingValue
tenant_value c k = untyped (kind k) (tenant_field c k)

-- the first value, where it has the type of the second
abbrev pub typed_as : (κ μ : Kind) → Typed κ → Typed μ → Typed μ
typed_as flag_kind flag_kind v w = v
typed_as number_kind number_kind v w = v
typed_as text_kind text_kind v w = v
typed_as mode_kind mode_kind v w = v
typed_as policy_kind policy_kind v w = v
typed_as _ _ v w = w

pub typed_as_same : (κ : Kind) (v w : Typed κ) → typed_as κ κ v w ≡ v
typed_as_same flag_kind v w = refl
typed_as_same number_kind v w = refl
typed_as_same text_kind v w = refl
typed_as_same mode_kind v w = refl
typed_as_same policy_kind v w = refl

abbrev pub put_tenant : (k : TenantSetting) → TenantSettingValue k → TenantConfig → TenantConfig
put_tenant k v c = tenant_from (λ j.
    if same_tenant k j then typed_as (kind k) (kind j) v (tenant_field c j) else tenant_field c j)
