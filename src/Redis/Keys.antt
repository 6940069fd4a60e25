-- ===== src/Redis/Keys.antt =====
-- config/redis-keys.ts: a constructor for each key function, and the text that it builds.
use Prim.Native.String.{◌++◌}
use authora.Prelude.{String, ◌≡◌, refl, ◌↔◌, Bool, true, false, ◌&&◌, arith, ◌==◌, eq_iff}
use authora.Model.{
  OneTimeTokenType, multi_factor_auth_verify, multi_factor_auth_validate,
  multi_factor_auth_disabling, account_deletion, forgot_password, magic_link, exchange,
}
use authora.Model.Equality.{same_type, same_type_iff}
use authora.Config.Names.{
  AuthoraSetting, TenantSetting, authora_text, tenant_text, same_authora, same_authora_iff,
  same_tenant, same_tenant_iff,
}

pub data Key : Type 0 where
  auth_session_key : String → Key
  auth_session_user_key : String → Key
  ott_key : String → OneTimeTokenType → Key
  ott_exchange_key : String → Key
  token_reuse_key : String → Key
  settings_authora_key : AuthoraSetting → Key
  settings_tenant_key : String → TenantSetting → Key

abbrev pub type_text : OneTimeTokenType → String
type_text multi_factor_auth_verify = "MULTI_FACTOR_AUTH_VERIFY"
type_text multi_factor_auth_validate = "MULTI_FACTOR_AUTH_VALIDATE"
type_text multi_factor_auth_disabling = "MULTI_FACTOR_AUTH_DISABLING"
type_text account_deletion = "ACCOUNT_DELETION"
type_text forgot_password = "FORGOT_PASSWORD"
type_text magic_link = "MAGIC_LINK"
type_text exchange = "EXCHANGE"

-- the key as Redis sees it
pub key_text : Key → String
key_text (auth_session_key id) = "auth_session:" ++ id
key_text (auth_session_user_key user) = "auth_session:user:" ++ user
key_text (ott_key user type) = "ott:" ++ user ++ ":" ++ type_text type
key_text (ott_exchange_key hash) = "ott_exchange:" ++ hash
key_text (token_reuse_key user) = "token_reuse:" ++ user
key_text (settings_authora_key key) = "settings:authora:" ++ authora_text key
key_text (settings_tenant_key tenant_id key) =
    "settings:tenant:" ++ tenant_id ++ ":" ++ tenant_text key

abbrev pub same_key : Key → Key → Bool
same_key (auth_session_key a) (auth_session_key b) = a == b
same_key (auth_session_user_key a) (auth_session_user_key b) = a == b
same_key (ott_key a t) (ott_key b u) = a == b && same_type t u
same_key (ott_exchange_key a) (ott_exchange_key b) = a == b
same_key (token_reuse_key a) (token_reuse_key b) = a == b
same_key (settings_authora_key a) (settings_authora_key b) = same_authora a b
same_key (settings_tenant_key a k) (settings_tenant_key b j) = a == b && same_tenant k j
same_key _ _ = false

pub same_key_iff : (k j : Key) → (same_key k j ≡ true) ↔ (k ≡ j)
same_key_iff (auth_session_key a) (auth_session_key b) = ground (arith, eq_iff a b)
same_key_iff (auth_session_user_key a) (auth_session_user_key b) = ground (arith, eq_iff a b)
same_key_iff (ott_key a t) (ott_key b u) = ground (arith, eq_iff a b, same_type_iff t u)
same_key_iff (ott_exchange_key a) (ott_exchange_key b) = ground (arith, eq_iff a b)
same_key_iff (token_reuse_key a) (token_reuse_key b) = ground (arith, eq_iff a b)
same_key_iff (settings_authora_key a) (settings_authora_key b) =
    ground (arith, same_authora_iff a b)
same_key_iff (settings_tenant_key a k) (settings_tenant_key b j) =
    ground (arith, eq_iff a b, same_tenant_iff k j)
same_key_iff _ _ = ground arith

pub same_key_refl : (k : Key) → same_key k k ≡ true
same_key_refl k = (same_key_iff k k).1 refl
