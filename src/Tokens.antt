-- ===== src/Tokens.antt =====
-- service/redis-model-service/one-time-token-redis.service.ts.
pub mod Single
pub mod Revocation
pub mod Reachable
use authora.Prelude.{ℕ, String, Bool, not, Option, none, some, List, [], ◌∷◌, ◌++◌, ◌==◌}
use authora.Model.{
  AuthSession, OneTimeTokenType, multi_factor_auth_verify, multi_factor_auth_validate,
  multi_factor_auth_disabling, account_deletion, forgot_password, magic_link, exchange,
}
use authora.Config.{TenantConfig}
use authora.Redis.{text}
use authora.Redis.Keys.{Key, ott_key, ott_exchange_key}
use authora.Exec.{pure, throw, gets, modify, throw_if, ◌>>=◌, ◌>>◌, invalid_token}
use authora.World.{Platform, World, Action, draw}
use authora.Sessions.{as_text}
use authora.Sessions

-- `Object.values(OneTimeTokenType)`
abbrev pub all_types : List OneTimeTokenType
all_types =
    multi_factor_auth_verify ∷ multi_factor_auth_validate ∷ multi_factor_auth_disabling
    ∷ account_deletion ∷ forgot_password ∷ magic_link ∷ exchange ∷ []

-- the keys that the loop of `revokeAllForUser` pushes for one type
abbrev pub keys_for : String → Option String → OneTimeTokenType → List Key
keys_for user_id (some h) exchange = ott_exchange_key h ∷ ott_key user_id exchange ∷ []
keys_for user_id _ type = ott_key user_id type ∷ []

-- The exchange key is read in the loop, before any key is deleted.
abbrev pub collect : String → Option String → List OneTimeTokenType → List Key
collect user_id existing [] = []
collect user_id existing (t ∷ ts) = keys_for user_id existing t ++ collect user_id existing ts

module _ {p : Platform} where
  abbrev pub text_at : World p → Key → Option String
  text_at w k = as_text (p.redis.get w.redis w.now k)

  abbrev pub set_text : Key → String → ℕ → Action p (Unit {0})
  set_text k s ttl = modify (λ w. record w { redis = p.redis.set_ex w.redis w.now k (text s) ttl })

  abbrev pub del_key : Key → Action p (Unit {0})
  del_key k = modify (λ w. record w { redis = p.redis.del w.redis k })

  -- `del(...keys)`
  unfoldable pub del_keys : List Key → Action p (Unit {0})
  del_keys [] = pure tt
  del_keys (k ∷ ks) = del_key k >> del_keys ks

module _ (p : Platform) where
  -- `_getTtlSecondsForType`, with the settings that it reads for the tenant
  abbrev pub ttl_seconds : OneTimeTokenType → TenantConfig → ℕ
  ttl_seconds exchange c = p.authora.ott_exchange_ttl_sec
  ttl_seconds account_deletion c = c.ott_account_deletion_ttl_sec
  ttl_seconds multi_factor_auth_verify c = c.ott_multi_factor_auth_verify_ttl_sec
  ttl_seconds multi_factor_auth_validate c = c.ott_multi_factor_auth_validate_ttl_sec
  ttl_seconds multi_factor_auth_disabling c = c.ott_multi_factor_auth_disabling_ttl_sec
  ttl_seconds forgot_password c = c.ott_forgot_password_ttl_sec
  ttl_seconds magic_link c = c.ott_magic_link_ttl_sec

module _ {p : Platform} where
  unfoldable pub create : String → OneTimeTokenType → TenantConfig → Action p String
  create user_id type config = do
    n ← draw
    let clear_token = p.random_hex n
    set_text (ott_key user_id type) (p.sha256 clear_token) (ttl_seconds p type config)
    pure clear_token

  -- the reverse index of an earlier exchange token goes
  abbrev pub drop_index : Option String → Action p (Unit {0})
  drop_index none = pure tt
  drop_index (some h) = del_key (ott_exchange_key h)

  unfoldable pub create_exchange_token : String → String → Action p String
  create_exchange_token user_id session_id = do
    n ← draw
    let clear_token = p.random_hex n
    let token_hash = p.sha256 clear_token
    let ttl = p.authora.ott_exchange_ttl_sec
    existing_hash ← gets (λ w. text_at w (ott_key user_id exchange))
    drop_index existing_hash
    set_text (ott_key user_id exchange) token_hash ttl
    set_text (ott_exchange_key token_hash) session_id ttl
    pure clear_token

  unfoldable pub consume : String → String → OneTimeTokenType → Action p (Unit {0})
  consume user_id clear_token type = do
    stored_hash ← gets (λ w. text_at w (ott_key user_id type))
    elim stored_hash [
      | none ↦ throw invalid_token
      | some h ↦ do
        throw_if (not (h == p.sha256 clear_token)) invalid_token
        del_key (ott_key user_id type)
    ]

  -- the rest of `consumeExchangeToken`, once the session is loaded
  abbrev pub consume_session : Key → AuthSession → Option String → Action p AuthSession
  consume_session exchange_key s none = throw invalid_token
  consume_session exchange_key s (some user_id) = do
    del_keys (exchange_key ∷ ott_key user_id exchange ∷ [])
    Sessions.delete s
    pure s

  unfoldable pub consume_exchange_token : String → Action p AuthSession
  unfolding del_keys Sessions.find_by_id Sessions.delete
  consume_exchange_token clear_token = do
    let exchange_key = ott_exchange_key (p.sha256 clear_token)
    session_id ← gets (λ w. text_at w exchange_key)
    elim session_id [
      | none ↦ throw invalid_token
      | some id ↦ do
        found ← Sessions.find_by_id id
        elim found [
          | none ↦ throw invalid_token
          | some s ↦ consume_session exchange_key s s.user_id
        ]
    ]

  unfoldable pub revoke_all_for_user : String → Action p (Unit {0})
  unfolding del_keys
  revoke_all_for_user user_id = do
    existing ← gets (λ w. text_at w (ott_key user_id exchange))
    del_keys (collect user_id existing all_types)
