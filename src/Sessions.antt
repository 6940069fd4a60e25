-- ===== src/Sessions.antt =====
-- service/redis-model-service/auth-session-redis.service.ts. A session is stored as JSON and read
-- back as it was; `JSON.parse` of anything else under a session's key is not modelled.
pub mod Storage
use authora.Prelude.{ℕ, ◌+◌, ◌*◌, String, Bool, false, not, Option, none, some, eqb, is_some, leb}
use authora.Model.{AuthSession, IntegrationMode, first_party, third_party, disabled}
use authora.Redis.{Value, session, text}
use authora.Redis.Keys.{auth_session_key, auth_session_user_key}
use authora.Exec.{pure, gets, modify, throw_if, when, ◌>>=◌, ◌>>◌, invalid_auth_session}
use authora.World.{Platform, World, Action, draw, time}

-- `JSON.parse` of the reply, and a reply that is a text
abbrev pub as_session : Option Value → Option AuthSession
as_session (some (session s)) = some s
as_session _ = none

abbrev pub as_text : Option Value → Option String
as_text (some (text s)) = some s
as_text _ = none

-- The fields that `createFirstParty` and `createThirdParty` pass to `_persist`.
abbrev pub fresh_session :
    String → IntegrationMode → Option String → Option String → Option String → AuthSession
fresh_session tenant_id mode fingerprint redirect_uri code_challenge = record {
  id = "";
  tenant_id = tenant_id;
  user_id = none;
  mode = mode;
  device_fingerprint = fingerprint;
  app_id = none;
  code_challenge = code_challenge;
  redirect_uri = redirect_uri;
  primary_auth_verified = false;
  remember_me = false;
  mfa_verified = false;
  mfa_policy = disabled;
  mfa_setup = false;
  device_trusted = false;
  exchanged = false;
  created_at = 0;
  expires_at = 0;
}

module _ {p : Platform} where
  -- the session under an id, at the world's time
  abbrev pub stored : World p → String → Option AuthSession
  stored w id = as_session (p.redis.get w.redis w.now (auth_session_key id))

  -- `del` of the key of the user's session, if the session has a user
  abbrev pub del_user_key : Option String → Action p (Unit {0})
  del_user_key none = pure tt
  del_user_key (some user_id) =
      modify (λ w. record w { redis = p.redis.del w.redis (auth_session_user_key user_id) })

  abbrev pub set_user_key : Option String → String → ℕ → Action p (Unit {0})
  set_user_key none id ttl = pure tt
  set_user_key (some user_id) id ttl = modify (λ w. record w {
    redis = p.redis.set_ex w.redis w.now (auth_session_user_key user_id) (text id) ttl;
  })

  -- `id`, `createdAt` and `expiresAt` are filled in
  unfoldable pub persist : AuthSession → Action p AuthSession
  persist fields = do
    let ttl = p.authora.auth_session_ttl_sec
    now ← time
    n ← draw
    let created : AuthSession = record fields {
      id = p.uuid n;
      created_at = now;
      expires_at = now + ttl * 1000;
    }
    modify (λ w. record w {
      redis = p.redis.set_ex w.redis w.now (auth_session_key created.id) (session created) ttl;
    })
    set_user_key created.user_id created.id ttl
    pure created

  unfoldable pub create_first_party : String → String → Action p AuthSession
  unfolding persist
  create_first_party tenant_id fingerprint =
      persist (fresh_session tenant_id first_party (some fingerprint) none none)

  unfoldable pub create_third_party : String → String → String → Action p AuthSession
  unfolding persist
  create_third_party tenant_id redirect_uri code_challenge =
      persist (fresh_session tenant_id third_party none (some redirect_uri) (some code_challenge))

  unfoldable pub find_by_id : String → Action p (Option AuthSession)
  find_by_id id = gets (λ w. stored w id)

  unfoldable pub find_active_for_user_id : String → Action p (Option AuthSession)
  unfolding find_by_id
  find_active_for_user_id user_id = do
    id ← gets (λ w. as_text (p.redis.get w.redis w.now (auth_session_user_key user_id)))
    elim id [ none ↦ pure none | some id ↦ find_by_id id ]

  unfoldable pub verify : AuthSession → Action p (Unit {0})
  verify s = do
    exists ← gets (λ w. is_some (p.redis.get w.redis w.now (auth_session_key s.id)))
    throw_if (not exists) invalid_auth_session

  -- the write keeps the key's deadline, to the second
  unfoldable pub update : AuthSession → Action p (Unit {0})
  update s = do
    ttl ← gets (λ w. p.redis.ttl w.redis w.now (auth_session_key s.id))
    throw_if (leb ttl 0) invalid_auth_session
    modify (λ w. record w {
      redis = p.redis.set_ex w.redis w.now (auth_session_key s.id) (session s) ttl;
    })

  unfoldable pub delete : AuthSession → Action p (Unit {0})
  delete s = do
    modify (λ w. record w { redis = p.redis.del w.redis (auth_session_key s.id) })
    del_user_key s.user_id
