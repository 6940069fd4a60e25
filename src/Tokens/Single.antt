-- ===== src/Tokens/Single.antt =====
-- one-time-token-redis.service.ts: a token works once, only the newest one of a type does, and
-- nothing else in Redis changes.
use authora.Prelude.{
  ◌<◌, ◌≡◌, ◌≢◌, ◌↔◌, ◌∙◌, String, Option, none, some, arith, eq_iff, if◌then◌else◌, ltb, inl, inr,
  Option-cases,
}
use authora.Model.{OneTimeTokenType}
use authora.Redis.{text}
use authora.Redis.Keys.{Key, same_key, same_key_refl, ott_key, auth_session_key}
use authora.Exec.{ok, err, invalid_token}
use authora.Config.{TenantConfig}
use authora.World.{Platform, World}
use authora.Sessions.{stored}
use authora.Tokens.{text_at, ttl_seconds, create, consume}

module _ {p : Platform} where
  -- the text that is under a key once a token of the user and type was created
  abbrev pub created_text : World p → String → OneTimeTokenType → TenantConfig → Key → Option String
  created_text w user_id type config k =
      if same_key (ott_key user_id type) k
      then if ltb 0 (ttl_seconds p type config)
        then some (p.sha256 (p.random_hex w.draws))
        else none
      else text_at w k

  pub text_at-create :
      (w : World p) (user_id : String) (config : TenantConfig) (type : OneTimeTokenType) (k : Key)
      → text_at (create user_id type config w).1 k ≡ created_text w user_id type config k
  unfolding create
  text_at-create w user_id config type k = ground (
    arith,
    p.redis.get-set_ex w.redis w.now w.now (ttl_seconds p type config) (ott_key user_id type) k
        (text (p.sha256 (p.random_hex w.draws))),
  )

  -- A one-time token is accepted exactly if its hash is the one that is stored for the user and
  -- type.
  pub consume-eq-ok_iff :
      (w : World p) (user_id clear_token : String) (type : OneTimeTokenType)
      → ((consume user_id clear_token type w).0 ≡ ok tt)
        ↔ (text_at w (ott_key user_id type) ≡ some (p.sha256 clear_token))
  unfolding consume
  consume-eq-ok_iff w user_id clear_token type =
      elim (Option-cases (text_at w (ott_key user_id type))) [
        | inl e ↦ rw e (ground arith)
        | inr (h, e) ↦ rw e (
          ground (arith, eq_iff h (p.sha256 clear_token)),
          ground (arith, eq_iff h (p.sha256 clear_token)),
        )
      ]

  -- With a positive lifetime of the type, the token that `create` draws is accepted by `consume`
  -- right afterwards.
  pub create_then_consume :
      (w : World p) (user_id : String) (config : TenantConfig) (type : OneTimeTokenType)
      → 0 < ttl_seconds p type config
      → (consume user_id (p.random_hex w.draws) type (create user_id type config w).1).0 ≡ ok tt
  create_then_consume w user_id config type h =
      (consume-eq-ok_iff (create user_id type config w).1 user_id (p.random_hex w.draws) type).1 (
        text_at-create w user_id config type (ott_key user_id type)
        ∙ ground (arith, same_key_refl (ott_key user_id type)))

  -- the world once a token is used
  abbrev pub used : World p → String → OneTimeTokenType → World p
  used w user_id type = record w { redis = p.redis.del w.redis (ott_key user_id type) }

  pub consume-eq-ok :
      (w w' : World p) (user_id clear_token : String) (type : OneTimeTokenType)
      → consume user_id clear_token type w ≡ (ok tt, w')
      → w' ≡ used w user_id type
  unfolding consume
  consume-eq-ok w w' user_id clear_token type h =
      elim (Option-cases (text_at w (ott_key user_id type))) [
        | inl e ↦ ground arith
        | inr (t, e) ↦ ground (arith, eq_iff t (p.sha256 clear_token))
      ]

  consume-used :
      (w : World p) (user_id later : String) (type : OneTimeTokenType)
      → consume user_id later type (used w user_id type) ≡ (err invalid_token, used w user_id type)
  unfolding consume
  consume-used w user_id later type = ground (
    arith,
    p.redis.get-del w.redis w.now (ott_key user_id type) (ott_key user_id type),
    same_key_refl (ott_key user_id type),
  )

  -- Once a one-time token is accepted, every token of the same user and type is refused, without
  -- a change.
  pub consume_once :
      (w w' : World p) (user_id clear_token later : String) (type : OneTimeTokenType)
      → consume user_id clear_token type w ≡ (ok tt, w')
      → consume user_id later type w' ≡ (err invalid_token, w')
  consume_once w w' user_id clear_token later type h =
      rw (consume-eq-ok w w' user_id clear_token type h) (consume-used w user_id later type)

  -- A token whose hash is not the one that is stored for the user and type is refused, and
  -- nothing changes.
  pub consume_refused :
      (w : World p) (user_id clear_token : String) (type : OneTimeTokenType)
      → text_at w (ott_key user_id type) ≢ some (p.sha256 clear_token)
      → consume user_id clear_token type w ≡ (err invalid_token, w)
  unfolding consume
  consume_refused w user_id clear_token type h =
      elim (Option-cases (text_at w (ott_key user_id type))) [
        | inl e ↦ rw e
        | inr (t, e) ↦ ground (arith, eq_iff t (p.sha256 clear_token))
      ]

  -- After a new token was created for a user and type, any token with another hash is refused,
  -- without a change.
  pub create_supersedes :
      (w : World p) (user_id old : String) (config : TenantConfig) (type : OneTimeTokenType)
      → p.sha256 old ≢ p.sha256 (p.random_hex w.draws)
      → consume user_id old type (create user_id type config w).1
        ≡ (err invalid_token, (create user_id type config w).1)
  create_supersedes w user_id old config type h = consume_refused _ user_id old type (λ same.
      ground (
        arith,
        h,
        text_at-create w user_id config type (ott_key user_id type),
        same_key_refl (ott_key user_id type),
      ))

  -- A one-time token leaves the sessions alone.
  pub stored-create :
      (w : World p) (user_id id : String) (config : TenantConfig) (type : OneTimeTokenType)
      → stored (create user_id type config w).1 id ≡ stored w id
  unfolding create
  stored-create w user_id id config type = ground (
    arith,
    p.redis.get-set_ex w.redis w.now w.now (ttl_seconds p type config) (ott_key user_id type)
        (auth_session_key id) (text (p.sha256 (p.random_hex w.draws))),
  )
