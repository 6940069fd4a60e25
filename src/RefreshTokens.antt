-- ===== src/RefreshTokens.antt =====
-- service/entity-service/refresh-token-entity.service.ts.
pub mod Active
use authora.Prelude.{
  ℕ, ◌+◌, ◌*◌, String, Bool, true, false, not, ◌&&◌, Option, none, some, List, [], ◌∷◌,
  if◌then◌else◌, ltb, leb, eqb, ◌==◌,
}
use authora.Model.{RefreshTokenEntity, UserEntity, suspicious_activity}
use authora.Redis.Keys.{token_reuse_key}
use authora.Exec.{pure, throw, gets, modify, when, ◌>>=◌, ◌>>◌, token_reuse_detected}
use authora.World.{Platform, World, Action, draw, time, read_without_tenant}
use authora.Hashing.{hash}
use authora.Users

abbrev pub revoke : RefreshTokenEntity → RefreshTokenEntity
revoke t = record t { revoked = true }

-- `where: { user: { id }, revoked: false }`
abbrev pub active_for : String → RefreshTokenEntity → Bool
active_for user_id t = t.user_id == user_id && not t.revoked

module _ {p : Platform} where
  abbrev pub update_tokens : (RefreshTokenEntity → Bool) → Action p (Unit {0})
  update_tokens criterion =
      modify (λ w. record w {
        refresh_tokens = p.refresh_tokens.update criterion revoke w.refresh_tokens;
      })

  -- `save(create({ user, tokenHash, jwt, family, expiredAt }))`
  abbrev pub save : UserEntity → String → String → String → ℕ → Action p (Unit {0})
  save u token_hash jwt family expired_at = do
    n ← draw
    now ← time
    modify (λ w. record w {
      refresh_tokens =
          p.refresh_tokens.insert
            (record {
              id = p.uuid n;
              user_id = u.id;
              token_hash = token_hash;
              family = family;
              jwt = jwt;
              revoked = false;
              expired_at = expired_at;
              created_at = now;
            })
            w.refresh_tokens;
    })

  unfoldable pub create : UserEntity → ℕ → String → Action p String
  unfolding hash
  create u expiration_seconds jwt = do
    update_tokens (active_for u.id)
    n ← draw
    let clear_token = p.random_hex n
    token_hash ← hash clear_token
    now ← time
    family ← draw
    save u token_hash jwt (p.uuid family) (now + expiration_seconds * 1000)
    pure clear_token

  unfoldable pub find_by_jwt : UserEntity → String → Action p (Option RefreshTokenEntity)
  find_by_jwt u jwt = gets (λ w.
      p.refresh_tokens.find_one (λ t. t.user_id == u.id && t.jwt == jwt && not t.revoked)
        w.refresh_tokens)

  unfoldable pub find_active_for_user : UserEntity → Action p (Option RefreshTokenEntity)
  find_active_for_user u = gets (λ w. p.refresh_tokens.find_one (active_for u.id) w.refresh_tokens)

  unfoldable pub find_all_active_for_user : UserEntity → Action p (List RefreshTokenEntity)
  find_all_active_for_user u =
      gets (λ w. p.refresh_tokens.find (active_for u.id) (λ t. t.created_at) w.refresh_tokens)

module _ (p : Platform) where
  -- the loop of `findByUserIncludingRevoked`
  unfoldable pub first_match : String → List RefreshTokenEntity → Option RefreshTokenEntity
  first_match clear_token [] = none
  first_match clear_token (t ∷ ts) =
      let rest = first_match clear_token ts in
      if p.argon2_verify t.token_hash clear_token then some t else rest

module _ {p : Platform} where
  unfoldable pub find_by_user_including_revoked :
      UserEntity → String → Action p (Option RefreshTokenEntity)
  unfolding first_match
  find_by_user_including_revoked u clear_token = gets (λ w.
      first_match p clear_token
        (p.refresh_tokens.find (λ t. t.user_id == u.id) (λ t. t.created_at) w.refresh_tokens))

  unfoldable pub revoke_all_for_user : UserEntity → Action p (Unit {0})
  revoke_all_for_user u = update_tokens (active_for u.id)

  unfoldable pub reset_reuse_counter : String → Action p (Unit {0})
  reset_reuse_counter user_id =
      modify (λ w. record w { redis = p.redis.del w.redis (token_reuse_key user_id) })

  unfoldable pub revoke_family : String → Action p (Unit {0})
  revoke_family family = update_tokens (λ t. t.family == family && not t.revoked)

  -- `incr(key)`
  abbrev pub incr_reuse : String → Action p ℕ
  incr_reuse user_id w =
      let (count, store) = p.redis.incr w.redis w.now (token_reuse_key user_id) in
      (pure count) (record w { redis = store })

  -- Always throws. The settings are read for the tenant '', whichever is read first.
  unfoldable pub handle_token_reuse : RefreshTokenEntity → UserEntity → Action p (Unit {0})
  unfolding revoke_family Users.lock
  handle_token_reuse t u = do
    revoke_family t.family
    count ← incr_reuse u.id
    config ← read_without_tenant
    when (eqb count 1) (
        modify (λ w. record w {
          redis = p.redis.expire w.redis w.now (token_reuse_key u.id) config.token_reuse_window_sec;
        }))
    when (leb config.token_reuse_max_compromised_families count) (Users.lock u suspicious_activity)
    throw token_reuse_detected

  unfoldable pub verify : RefreshTokenEntity → String → UserEntity → Action p Bool
  unfolding handle_token_reuse
  verify t clear_token u = do
    when t.revoked (handle_token_reuse t u)
    now ← time
    pure (if ltb t.expired_at now then false else p.argon2_verify t.token_hash clear_token)

  unfoldable pub rotate : RefreshTokenEntity → UserEntity → String → Action p String
  unfolding hash
  rotate t u jwt = do
    update_tokens (λ r. r.id == t.id)
    n ← draw
    let clear_token = p.random_hex n
    token_hash ← hash clear_token
    save u token_hash jwt t.family t.expired_at
    pure clear_token
