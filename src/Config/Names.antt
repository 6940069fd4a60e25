-- ===== src/Config/Names.antt =====
-- config/settings.ts: the enums AuthoraSetting and TenantSetting, with the text of each member, the
-- order of `Object.values`, and the test on two members.
use authora.Prelude.{
  ℕ, String, ◌≡◌, refl, sym, ◌∙◌, ap, ◌↔◌, Bool, true, some, List, [], ◌∷◌, arith, eqb, Member,
  get_elem?, Member-get_elem?, some_inj,
}

pub data AuthoraSetting : Type 0 where
  hash_memory_cost hash_time_cost hash_parallelism throttle_ttl_ms : AuthoraSetting
  throttle_origin_limit throttle_identity_limit : AuthoraSetting
  throttle_combined_limit endpoint_delay_min_ms endpoint_delay_max_ms : AuthoraSetting
  auth_session_ttl_sec ott_exchange_ttl_sec : AuthoraSetting
  super_admin_jwt_expiration_sec : AuthoraSetting

pub data TenantSetting : Type 0 where
  integration_mode authora_ui_base_url jwt_access_token_expiration_sec : TenantSetting
  jwt_refresh_token_short_expiration_sec : TenantSetting
  jwt_refresh_token_long_expiration_sec primary_auth_max_attempts : TenantSetting
  primary_auth_cooldown_sec primary_auth_lock_account_threshold : TenantSetting
  unlock_on_password_reset mfa_policy mfa_auth_max_attempts : TenantSetting
  mfa_auth_cooldown_sec password_expiration_enabled : TenantSetting
  password_max_age_sec password_min_length password_require_digit : TenantSetting
  password_require_special_char password_require_lowercase : TenantSetting
  password_require_uppercase password_forbid_sequential_chars : TenantSetting
  password_forbid_repeated_chars password_forbid_keyboard_sequence : TenantSetting
  password_forbid_user_info password_forbid_common_password : TenantSetting
  trusted_device_ttl_sec device_fingerprint_cookie_max_age_days : TenantSetting
  token_reuse_max_compromised_families token_reuse_window_sec : TenantSetting
  ott_email_verification_ttl_sec ott_account_deletion_ttl_sec : TenantSetting
  ott_multi_factor_auth_verify_ttl_sec : TenantSetting
  ott_multi_factor_auth_validate_ttl_sec : TenantSetting
  ott_multi_factor_auth_disabling_ttl_sec ott_forgot_password_ttl_sec : TenantSetting
  ott_magic_link_ttl_sec email_new_device_sign_in : TenantSetting
  email_suspicious_activity email_account_locked email_mfa_setup : TenantSetting

-- the value of a member of AuthoraSetting
abbrev pub authora_text : AuthoraSetting → String
authora_text AuthoraSetting.hash_memory_cost = "hashMemoryCost"
authora_text AuthoraSetting.hash_time_cost = "hashTimeCost"
authora_text AuthoraSetting.hash_parallelism = "hashParallelism"
authora_text AuthoraSetting.throttle_ttl_ms = "throttleTtlMs"
authora_text AuthoraSetting.throttle_origin_limit = "throttleOriginLimit"
authora_text AuthoraSetting.throttle_identity_limit = "throttleIdentityLimit"
authora_text AuthoraSetting.throttle_combined_limit = "throttleCombinedLimit"
authora_text AuthoraSetting.endpoint_delay_min_ms = "endpointDelayMinMs"
authora_text AuthoraSetting.endpoint_delay_max_ms = "endpointDelayMaxMs"
authora_text AuthoraSetting.auth_session_ttl_sec = "authSessionTtlSec"
authora_text AuthoraSetting.ott_exchange_ttl_sec = "ottExchangeTtlSec"
authora_text AuthoraSetting.super_admin_jwt_expiration_sec = "superAdminJwtExpirationSec"

-- `Object.values(AuthoraSetting)`
abbrev pub authora_keys : List AuthoraSetting
authora_keys =
    AuthoraSetting.hash_memory_cost ∷ AuthoraSetting.hash_time_cost
    ∷ AuthoraSetting.hash_parallelism ∷ AuthoraSetting.throttle_ttl_ms
    ∷ AuthoraSetting.throttle_origin_limit ∷ AuthoraSetting.throttle_identity_limit
    ∷ AuthoraSetting.throttle_combined_limit ∷ AuthoraSetting.endpoint_delay_min_ms
    ∷ AuthoraSetting.endpoint_delay_max_ms ∷ AuthoraSetting.auth_session_ttl_sec
    ∷ AuthoraSetting.ott_exchange_ttl_sec ∷ AuthoraSetting.super_admin_jwt_expiration_sec ∷ []

abbrev pub authora_place : AuthoraSetting → ℕ
authora_place AuthoraSetting.hash_memory_cost = 0
authora_place AuthoraSetting.hash_time_cost = 1
authora_place AuthoraSetting.hash_parallelism = 2
authora_place AuthoraSetting.throttle_ttl_ms = 3
authora_place AuthoraSetting.throttle_origin_limit = 4
authora_place AuthoraSetting.throttle_identity_limit = 5
authora_place AuthoraSetting.throttle_combined_limit = 6
authora_place AuthoraSetting.endpoint_delay_min_ms = 7
authora_place AuthoraSetting.endpoint_delay_max_ms = 8
authora_place AuthoraSetting.auth_session_ttl_sec = 9
authora_place AuthoraSetting.ott_exchange_ttl_sec = 10
authora_place AuthoraSetting.super_admin_jwt_expiration_sec = 11

abbrev pub same_authora : AuthoraSetting → AuthoraSetting → Bool
same_authora k j = eqb (authora_place k) (authora_place j)

-- `Object.values` has every member, at its place.
authora_keys-place : (k : AuthoraSetting) → get_elem? authora_keys (authora_place k) ≡ some k
authora_keys-place AuthoraSetting.hash_memory_cost = refl
authora_keys-place AuthoraSetting.hash_time_cost = refl
authora_keys-place AuthoraSetting.hash_parallelism = refl
authora_keys-place AuthoraSetting.throttle_ttl_ms = refl
authora_keys-place AuthoraSetting.throttle_origin_limit = refl
authora_keys-place AuthoraSetting.throttle_identity_limit = refl
authora_keys-place AuthoraSetting.throttle_combined_limit = refl
authora_keys-place AuthoraSetting.endpoint_delay_min_ms = refl
authora_keys-place AuthoraSetting.endpoint_delay_max_ms = refl
authora_keys-place AuthoraSetting.auth_session_ttl_sec = refl
authora_keys-place AuthoraSetting.ott_exchange_ttl_sec = refl
authora_keys-place AuthoraSetting.super_admin_jwt_expiration_sec = refl

pub Member-authora_keys : (k : AuthoraSetting) → Member k authora_keys
Member-authora_keys k = Member-get_elem? authora_keys (authora_place k) (authora_keys-place k)

pub same_authora_iff : (k j : AuthoraSetting) → (same_authora k j ≡ true) ↔ (k ≡ j)
same_authora_iff k j = (
  (λ same.
      let place : authora_place k ≡ authora_place j = ground arith in
      some_inj
        (sym (authora_keys-place k) ∙ (ap (get_elem? authora_keys) place ∙ authora_keys-place j))),
  (λ same. rw (same) (ground arith)),
)

-- the value of a member of TenantSetting
abbrev pub tenant_text : TenantSetting → String
tenant_text TenantSetting.integration_mode = "integrationMode"
tenant_text TenantSetting.authora_ui_base_url = "authoraUiBaseUrl"
tenant_text TenantSetting.jwt_access_token_expiration_sec = "jwtAccessTokenExpirationSec"
tenant_text TenantSetting.jwt_refresh_token_short_expiration_sec =
    "jwtRefreshTokenShortExpirationSec"
tenant_text TenantSetting.jwt_refresh_token_long_expiration_sec = "jwtRefreshTokenLongExpirationSec"
tenant_text TenantSetting.primary_auth_max_attempts = "primaryAuthMaxAttempts"
tenant_text TenantSetting.primary_auth_cooldown_sec = "primaryAuthCooldownSec"
tenant_text TenantSetting.primary_auth_lock_account_threshold = "primaryAuthLockAccountThreshold"
tenant_text TenantSetting.unlock_on_password_reset = "unlockOnPasswordReset"
tenant_text TenantSetting.mfa_policy = "mfaPolicy"
tenant_text TenantSetting.mfa_auth_max_attempts = "mfaAuthMaxAttempts"
tenant_text TenantSetting.mfa_auth_cooldown_sec = "mfaAuthCooldownSec"
tenant_text TenantSetting.password_expiration_enabled = "passwordExpirationEnabled"
tenant_text TenantSetting.password_max_age_sec = "passwordMaxAgeSec"
tenant_text TenantSetting.password_min_length = "passwordMinLength"
tenant_text TenantSetting.password_require_digit = "passwordRequireDigit"
tenant_text TenantSetting.password_require_special_char = "passwordRequireSpecialChar"
tenant_text TenantSetting.password_require_lowercase = "passwordRequireLowercase"
tenant_text TenantSetting.password_require_uppercase = "passwordRequireUppercase"
tenant_text TenantSetting.password_forbid_sequential_chars = "passwordForbidSequentialChars"
tenant_text TenantSetting.password_forbid_repeated_chars = "passwordForbidRepeatedChars"
tenant_text TenantSetting.password_forbid_keyboard_sequence = "passwordForbidKeyboardSequence"
tenant_text TenantSetting.password_forbid_user_info = "passwordForbidUserInfo"
tenant_text TenantSetting.password_forbid_common_password = "passwordForbidCommonPassword"
tenant_text TenantSetting.trusted_device_ttl_sec = "trustedDeviceTtlSec"
tenant_text TenantSetting.device_fingerprint_cookie_max_age_days =
    "deviceFingerprintCookieMaxAgeDays"
tenant_text TenantSetting.token_reuse_max_compromised_families = "tokenReuseMaxCompromisedFamilies"
tenant_text TenantSetting.token_reuse_window_sec = "tokenReuseWindowSec"
tenant_text TenantSetting.ott_email_verification_ttl_sec = "ottEmailVerificationTtlSec"
tenant_text TenantSetting.ott_account_deletion_ttl_sec = "ottAccountDeletionTtlSec"
tenant_text TenantSetting.ott_multi_factor_auth_verify_ttl_sec = "ottMultiFactorAuthVerifyTtlSec"
tenant_text TenantSetting.ott_multi_factor_auth_validate_ttl_sec =
    "ottMultiFactorAuthValidateTtlSec"
tenant_text TenantSetting.ott_multi_factor_auth_disabling_ttl_sec =
    "ottMultiFactorAuthDisablingTtlSec"
tenant_text TenantSetting.ott_forgot_password_ttl_sec = "ottForgotPasswordTtlSec"
tenant_text TenantSetting.ott_magic_link_ttl_sec = "ottMagicLinkTtlSec"
tenant_text TenantSetting.email_new_device_sign_in = "emailNewDeviceSignIn"
tenant_text TenantSetting.email_suspicious_activity = "emailSuspiciousActivity"
tenant_text TenantSetting.email_account_locked = "emailAccountLocked"
tenant_text TenantSetting.email_mfa_setup = "emailMfaSetup"

-- `Object.values(TenantSetting)`
abbrev pub tenant_keys : List TenantSetting
tenant_keys =
    TenantSetting.integration_mode ∷ TenantSetting.authora_ui_base_url
    ∷ TenantSetting.jwt_access_token_expiration_sec
    ∷ TenantSetting.jwt_refresh_token_short_expiration_sec
    ∷ TenantSetting.jwt_refresh_token_long_expiration_sec ∷ TenantSetting.primary_auth_max_attempts
    ∷ TenantSetting.primary_auth_cooldown_sec ∷ TenantSetting.primary_auth_lock_account_threshold
    ∷ TenantSetting.unlock_on_password_reset ∷ TenantSetting.mfa_policy
    ∷ TenantSetting.mfa_auth_max_attempts ∷ TenantSetting.mfa_auth_cooldown_sec
    ∷ TenantSetting.password_expiration_enabled ∷ TenantSetting.password_max_age_sec
    ∷ TenantSetting.password_min_length ∷ TenantSetting.password_require_digit
    ∷ TenantSetting.password_require_special_char ∷ TenantSetting.password_require_lowercase
    ∷ TenantSetting.password_require_uppercase ∷ TenantSetting.password_forbid_sequential_chars
    ∷ TenantSetting.password_forbid_repeated_chars ∷ TenantSetting.password_forbid_keyboard_sequence
    ∷ TenantSetting.password_forbid_user_info ∷ TenantSetting.password_forbid_common_password
    ∷ TenantSetting.trusted_device_ttl_sec ∷ TenantSetting.device_fingerprint_cookie_max_age_days
    ∷ TenantSetting.token_reuse_max_compromised_families ∷ TenantSetting.token_reuse_window_sec
    ∷ TenantSetting.ott_email_verification_ttl_sec ∷ TenantSetting.ott_account_deletion_ttl_sec
    ∷ TenantSetting.ott_multi_factor_auth_verify_ttl_sec
    ∷ TenantSetting.ott_multi_factor_auth_validate_ttl_sec
    ∷ TenantSetting.ott_multi_factor_auth_disabling_ttl_sec
    ∷ TenantSetting.ott_forgot_password_ttl_sec ∷ TenantSetting.ott_magic_link_ttl_sec
    ∷ TenantSetting.email_new_device_sign_in ∷ TenantSetting.email_suspicious_activity
    ∷ TenantSetting.email_account_locked ∷ TenantSetting.email_mfa_setup ∷ []

abbrev pub tenant_place : TenantSetting → ℕ
tenant_place TenantSetting.integration_mode = 0
tenant_place TenantSetting.authora_ui_base_url = 1
tenant_place TenantSetting.jwt_access_token_expiration_sec = 2
tenant_place TenantSetting.jwt_refresh_token_short_expiration_sec = 3
tenant_place TenantSetting.jwt_refresh_token_long_expiration_sec = 4
tenant_place TenantSetting.primary_auth_max_attempts = 5
tenant_place TenantSetting.primary_auth_cooldown_sec = 6
tenant_place TenantSetting.primary_auth_lock_account_threshold = 7
tenant_place TenantSetting.unlock_on_password_reset = 8
tenant_place TenantSetting.mfa_policy = 9
tenant_place TenantSetting.mfa_auth_max_attempts = 10
tenant_place TenantSetting.mfa_auth_cooldown_sec = 11
tenant_place TenantSetting.password_expiration_enabled = 12
tenant_place TenantSetting.password_max_age_sec = 13
tenant_place TenantSetting.password_min_length = 14
tenant_place TenantSetting.password_require_digit = 15
tenant_place TenantSetting.password_require_special_char = 16
tenant_place TenantSetting.password_require_lowercase = 17
tenant_place TenantSetting.password_require_uppercase = 18
tenant_place TenantSetting.password_forbid_sequential_chars = 19
tenant_place TenantSetting.password_forbid_repeated_chars = 20
tenant_place TenantSetting.password_forbid_keyboard_sequence = 21
tenant_place TenantSetting.password_forbid_user_info = 22
tenant_place TenantSetting.password_forbid_common_password = 23
tenant_place TenantSetting.trusted_device_ttl_sec = 24
tenant_place TenantSetting.device_fingerprint_cookie_max_age_days = 25
tenant_place TenantSetting.token_reuse_max_compromised_families = 26
tenant_place TenantSetting.token_reuse_window_sec = 27
tenant_place TenantSetting.ott_email_verification_ttl_sec = 28
tenant_place TenantSetting.ott_account_deletion_ttl_sec = 29
tenant_place TenantSetting.ott_multi_factor_auth_verify_ttl_sec = 30
tenant_place TenantSetting.ott_multi_factor_auth_validate_ttl_sec = 31
tenant_place TenantSetting.ott_multi_factor_auth_disabling_ttl_sec = 32
tenant_place TenantSetting.ott_forgot_password_ttl_sec = 33
tenant_place TenantSetting.ott_magic_link_ttl_sec = 34
tenant_place TenantSetting.email_new_device_sign_in = 35
tenant_place TenantSetting.email_suspicious_activity = 36
tenant_place TenantSetting.email_account_locked = 37
tenant_place TenantSetting.email_mfa_setup = 38

abbrev pub same_tenant : TenantSetting → TenantSetting → Bool
same_tenant k j = eqb (tenant_place k) (tenant_place j)

-- `Object.values` has every member, at its place.
tenant_keys-place : (k : TenantSetting) → get_elem? tenant_keys (tenant_place k) ≡ some k
tenant_keys-place TenantSetting.integration_mode = refl
tenant_keys-place TenantSetting.authora_ui_base_url = refl
tenant_keys-place TenantSetting.jwt_access_token_expiration_sec = refl
tenant_keys-place TenantSetting.jwt_refresh_token_short_expiration_sec = refl
tenant_keys-place TenantSetting.jwt_refresh_token_long_expiration_sec = refl
tenant_keys-place TenantSetting.primary_auth_max_attempts = refl
tenant_keys-place TenantSetting.primary_auth_cooldown_sec = refl
tenant_keys-place TenantSetting.primary_auth_lock_account_threshold = refl
tenant_keys-place TenantSetting.unlock_on_password_reset = refl
tenant_keys-place TenantSetting.mfa_policy = refl
tenant_keys-place TenantSetting.mfa_auth_max_attempts = refl
tenant_keys-place TenantSetting.mfa_auth_cooldown_sec = refl
tenant_keys-place TenantSetting.password_expiration_enabled = refl
tenant_keys-place TenantSetting.password_max_age_sec = refl
tenant_keys-place TenantSetting.password_min_length = refl
tenant_keys-place TenantSetting.password_require_digit = refl
tenant_keys-place TenantSetting.password_require_special_char = refl
tenant_keys-place TenantSetting.password_require_lowercase = refl
tenant_keys-place TenantSetting.password_require_uppercase = refl
tenant_keys-place TenantSetting.password_forbid_sequential_chars = refl
tenant_keys-place TenantSetting.password_forbid_repeated_chars = refl
tenant_keys-place TenantSetting.password_forbid_keyboard_sequence = refl
tenant_keys-place TenantSetting.password_forbid_user_info = refl
tenant_keys-place TenantSetting.password_forbid_common_password = refl
tenant_keys-place TenantSetting.trusted_device_ttl_sec = refl
tenant_keys-place TenantSetting.device_fingerprint_cookie_max_age_days = refl
tenant_keys-place TenantSetting.token_reuse_max_compromised_families = refl
tenant_keys-place TenantSetting.token_reuse_window_sec = refl
tenant_keys-place TenantSetting.ott_email_verification_ttl_sec = refl
tenant_keys-place TenantSetting.ott_account_deletion_ttl_sec = refl
tenant_keys-place TenantSetting.ott_multi_factor_auth_verify_ttl_sec = refl
tenant_keys-place TenantSetting.ott_multi_factor_auth_validate_ttl_sec = refl
tenant_keys-place TenantSetting.ott_multi_factor_auth_disabling_ttl_sec = refl
tenant_keys-place TenantSetting.ott_forgot_password_ttl_sec = refl
tenant_keys-place TenantSetting.ott_magic_link_ttl_sec = refl
tenant_keys-place TenantSetting.email_new_device_sign_in = refl
tenant_keys-place TenantSetting.email_suspicious_activity = refl
tenant_keys-place TenantSetting.email_account_locked = refl
tenant_keys-place TenantSetting.email_mfa_setup = refl

pub Member-tenant_keys : (k : TenantSetting) → Member k tenant_keys
Member-tenant_keys k = Member-get_elem? tenant_keys (tenant_place k) (tenant_keys-place k)

pub same_tenant_iff : (k j : TenantSetting) → (same_tenant k j ≡ true) ↔ (k ≡ j)
same_tenant_iff k j = (
  (λ same.
      let place : tenant_place k ≡ tenant_place j = ground arith in
      some_inj
        (sym (tenant_keys-place k) ∙ (ap (get_elem? tenant_keys) place ∙ tenant_keys-place j))),
  (λ same. rw (same) (ground arith)),
)
