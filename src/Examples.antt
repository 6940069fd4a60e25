-- ===== src/Examples.antt =====
-- A deployment whose parameters are concrete, for the examples: tables and Redis are kept in lists,
-- hashes are the clear text, and random values count up.
use Prim.Native.String.{◌++◌}
use authora.Prelude.{
  ℕ, zero, suc, String, Bool, true, false, Option, none, some, List, [], ◌∷◌, ◌==◌, ◌≡◌, ◌≢◌, arith,
  eq_iff,
}
use authora.Model.{
  UserEntity, user, PasswordEntity, RefreshTokenEntity, RegistrationEntity, TrustedDeviceEntity,
  MultiFactorAuthEntity, SignInAttemptEntity, AuthSession, MfaPolicy, optional, disabled, hybrid,
  first_party, third_party, OneTimeTokenType,
}
use authora.Config.{AuthoraConfig, TenantConfig}
use authora.Repository.Listed.{listed}
use authora.Redis.{Value, session, text}
use authora.Redis.Keys.{Key, auth_session_key, ott_key}
use authora.Redis.Entries.{entries, Entry, Entries, put}
use authora.World.{Platform, World}
pub mod Sessions
pub mod SignIns
pub mod Accounts
pub mod Rules
pub mod Settings
pub mod Starts
pub mod Requests

abbrev pub authora_config : AuthoraConfig
authora_config = record {
  hash_memory_cost = 19456;
  hash_time_cost = 2;
  hash_parallelism = 1;
  throttle_ttl_ms = 60000;
  throttle_origin_limit = 100;
  throttle_identity_limit = 10;
  throttle_combined_limit = 10;
  endpoint_delay_min_ms = 100;
  endpoint_delay_max_ms = 300;
  auth_session_ttl_sec = 900;
  ott_exchange_ttl_sec = 60;
  super_admin_jwt_expiration_sec = 900;
}

abbrev pub tenant_config : MfaPolicy → TenantConfig
tenant_config policy = record {
  integration_mode = hybrid;
  authora_ui_base_url = "https://auth.example.org";
  jwt_access_token_expiration_sec = 900;
  jwt_refresh_token_short_expiration_sec = 900;
  jwt_refresh_token_long_expiration_sec = 900;
  primary_auth_max_attempts = 5;
  primary_auth_cooldown_sec = 900;
  primary_auth_lock_account_threshold = 10;
  unlock_on_password_reset = true;
  mfa_policy = policy;
  mfa_auth_max_attempts = 5;
  mfa_auth_cooldown_sec = 900;
  password_expiration_enabled = false;
  password_max_age_sec = 900;
  password_min_length = 900;
  password_require_digit = false;
  password_require_special_char = false;
  password_require_lowercase = false;
  password_require_uppercase = false;
  password_forbid_sequential_chars = false;
  password_forbid_repeated_chars = false;
  password_forbid_keyboard_sequence = false;
  password_forbid_user_info = false;
  password_forbid_common_password = false;
  trusted_device_ttl_sec = 900;
  device_fingerprint_cookie_max_age_days = 900;
  token_reuse_max_compromised_families = 900;
  token_reuse_window_sec = 900;
  ott_email_verification_ttl_sec = 900;
  ott_account_deletion_ttl_sec = 900;
  ott_multi_factor_auth_verify_ttl_sec = 900;
  ott_multi_factor_auth_validate_ttl_sec = 900;
  ott_multi_factor_auth_disabling_ttl_sec = 900;
  ott_forgot_password_ttl_sec = 900;
  ott_magic_link_ttl_sec = 900;
  email_new_device_sign_in = false;
  email_suspicious_activity = false;
  email_account_locked = false;
  email_mfa_setup = false;
}

-- Two texts that a comparison tells apart are not equal.
pub apart : {a b : String} → (a == b) ≡ false → a ≢ b
apart {a} {b} differ = λ same. ground (arith, eq_iff a b)

-- "r", "1r", "11r", …
unfoldable pub random_name : ℕ → String
random_name zero = "r"
random_name (suc n) = let rest = random_name n in "1" ++ rest

unfoldable pub demo : Platform
unfolding listed entries random_name
demo = record {
  users = listed UserEntity;
  passwords = listed PasswordEntity;
  refresh_tokens = listed RefreshTokenEntity;
  registrations = listed RegistrationEntity;
  devices = listed TrustedDeviceEntity;
  mfas = listed MultiFactorAuthEntity;
  attempts = listed SignInAttemptEntity;
  redis = entries;
  argon2_hash = λ m t l salt value. value;
  argon2_verify = λ h value. h == value;
  sha256 = λ value. value;
  random_hex = random_name;
  random_bytes = λ n. n ∷ [];
  uuid = random_name;
  sign = λ id email now. id;
  decode = λ token. some token;
  generate_secret = λ n email. email;
  totp_verify = λ secret code now. secret == code;
  qrcode = λ secret label. label;
  to_lower_case = λ s. s;
  authora = authora_config;
  tenant = λ id. tenant_config optional;
  no_tenant = some (tenant_config optional);
}

abbrev pub no_entries : Entries
no_entries k = none

abbrev pub entry_until : Value → ℕ → Option Entry
entry_until v deadline = some (record { value = v; deadline = some deadline })

abbrev pub alice : UserEntity
alice = record {
  id = "alice";
  tenant_id = "t";
  email = "alice@example.org";
  role = user;
  is_locked = false;
  locked_at = none;
  lock_reason = none;
  primary_failed_attempt_count = 0;
  primary_last_failed_attempt_at = none;
  mfa_failed_attempt_count = 0;
  mfa_last_failed_attempt_at = none;
  created_at = 0;
}

abbrev pub bob : UserEntity
bob = record alice { id = "bob"; email = "bob@example.org" }

abbrev pub alice_password : PasswordEntity
alice_password = record {
  id = "p";
  user_id = "alice";
  password_hash = "secret";
  revoked = false;
  revocation_reason = none;
  revoked_at = none;
  created_at = 0;
}

abbrev pub alice_token : RefreshTokenEntity
alice_token = record {
  id = "rt";
  user_id = "alice";
  token_hash = "clear";
  family = "f";
  jwt = "alice";
  revoked = false;
  expired_at = 100000;
  created_at = 0;
}

abbrev pub alice_mfa : MultiFactorAuthEntity
alice_mfa = record {
  id = "m";
  user_id = "alice";
  secret = "123456";
  is_verified = true;
  recovery_code_hashes = [];
  created_at = 0;
}

abbrev pub bobs_device : TrustedDeviceEntity
bobs_device = record {
  id = "d";
  user_id = "bob";
  fingerprint_hash = "fp";
  name = "Unknown";
  last_ip = "::1";
  user_agent = "ua";
  browser = "Unknown";
  os = "Unknown";
  device_type = "desktop";
  trusted = false;
  trusted_until = none;
  first_seen_at = 0;
  last_seen_at = 0;
  created_at = 0;
}

abbrev pub carols_registration : RegistrationEntity
carols_registration = record {
  id = "reg";
  email = "carol@example.org";
  tenant_id = "t";
  password_hash = "hers";
  email_verification_token_hash = "token";
  email_verification_token_expires_at = 100000;
  created_at = 0;
}

-- Alice's session, both factors passed
abbrev pub done_session : AuthSession
done_session = record {
  id = "sid";
  tenant_id = "t";
  user_id = some "alice";
  mode = first_party;
  device_fingerprint = none;
  app_id = none;
  code_challenge = none;
  redirect_uri = none;
  primary_auth_verified = true;
  remember_me = false;
  mfa_verified = true;
  mfa_policy = optional;
  mfa_setup = true;
  device_trusted = false;
  exchanged = false;
  created_at = 0;
  expires_at = 900000;
}

-- a session that nobody has signed in to
abbrev pub new_session : AuthSession
new_session = record done_session {
  user_id = none;
  primary_auth_verified = false;
  mfa_verified = false;
  mfa_setup = false;
}

abbrev pub half_session : AuthSession
half_session = record done_session { mfa_verified = false }

-- the deployment at 1 s, with one session, which ends at 900 s, and one password reset token
unfoldable pub demo_world : AuthSession → World demo
unfolding demo
demo_world s = record {
  now = 1000;
  draws = 0;
  users = alice ∷ bob ∷ [];
  passwords = alice_password ∷ [];
  refresh_tokens = alice_token ∷ [];
  registrations = carols_registration ∷ [];
  devices = bobs_device ∷ [];
  mfas = alice_mfa ∷ [];
  attempts = [];
  redis =
      put
        (put
          (put no_entries (ott_key "alice" OneTimeTokenType.forgot_password)
            (entry_until (text "reset") 900000))
          (ott_key "alice" OneTimeTokenType.account_deletion) (entry_until (text "goodbye") 900000))
        (auth_session_key s.id) (entry_until (session s) 900000);
  outbox = [];
}
