-- ===== src/Tokens/Reachable.antt =====
-- auth-session-redis.service.ts and one-time-token-redis.service.ts together: the Redis stores that
-- their operations reach, in any order and at any times.
use authora.Prelude.{
  ℕ, suc, ◌≡◌, String, Option, none, some, List, [], ◌∷◌, arith, Bool-cases, Option-cases, inl, inr,
  ◌==◌,
}
use authora.Model.{AuthSession, OneTimeTokenType, exchange, first_party}
use authora.Redis.{text}
use authora.Redis.Keys.{Key, ott_key, ott_exchange_key, auth_session_key}
use authora.Config.{TenantConfig}
use authora.Exec.{pure, >>=-keeps}
use authora.World.{Platform, World}
use authora.Sessions.{stored, as_session, fresh_session}
use authora.Sessions
use authora.Sessions.Storage.{IsKeyed, keyed_id, sessions-IsKeyed, update-IsKeyed, delete-IsKeyed}
use authora.Tokens.{
  ttl_seconds, create, create_exchange_token, consume, consume_session, consume_exchange_token,
  revoke_all_for_user, del_keys, text_at, collect, all_types,
}

abbrev unused : AuthSession
unused = fresh_session "" first_party none none none

module _ {p : Platform} where
  -- One operation on Redis, or the passing of time.
  pub data Step : World p → World p → Type 0 where
    wait : (w : World p) (later : ℕ) → Step w (record w { now = later })
    open_first_party :
        (w : World p) (tenant_id fingerprint : String)
        → Step w (Sessions.create_first_party tenant_id fingerprint w).1
    open_third_party :
        (w : World p) (tenant_id redirect_uri code_challenge : String)
        → Step w (Sessions.create_third_party tenant_id redirect_uri code_challenge w).1
    update : (w : World p) (s : AuthSession) → Step w (Sessions.update s w).1
    delete : (w : World p) (s : AuthSession) → Step w (Sessions.delete s w).1
    create_token :
        (w : World p) (user_id : String) (config : TenantConfig) (type : OneTimeTokenType)
        → Step w (create user_id type config w).1
    create_exchange :
        (w : World p) (user_id session_id : String)
        → Step w (create_exchange_token user_id session_id w).1
    consume_token :
        (w : World p) (user_id clear_token : String) (type : OneTimeTokenType)
        → Step w (consume user_id clear_token type w).1
    consume_exchange :
        (w : World p) (clear_token : String) → Step w (consume_exchange_token clear_token w).1
    revoke_all : (w : World p) (user_id : String) → Step w (revoke_all_for_user user_id w).1

  pub data Reachable (start : World p) : World p → Type 0 where
    here : Reachable start start
    after : {v w : World p} → Reachable start v → Step v w → Reachable start w

  -- To delete a key, whichever it is, keeps the sessions that stay under their ids,
  del-IsKeyed :
      (w : World p) (k : Key) → IsKeyed w → IsKeyed (record w { redis = p.redis.del w.redis k })
  del-IsKeyed w k keyed later id =
      ground (arith, keyed later id, p.redis.get-del w.redis later k (auth_session_key id))

  -- and so does a one-time token.
  token-IsKeyed :
      (w : World p) (user_id s : String) (type : OneTimeTokenType) (ttl : ℕ)
      → IsKeyed w
      → IsKeyed
          (record w { redis = p.redis.set_ex w.redis w.now (ott_key user_id type) (text s) ttl })
  token-IsKeyed w user_id s type ttl keyed later id = ground (
    arith,
    keyed later id,
    p.redis.get-set_ex w.redis w.now later ttl (ott_key user_id type) (auth_session_key id)
        (text s),
  )

  index-IsKeyed :
      (w : World p) (h s : String) (ttl : ℕ)
      → IsKeyed w
      → IsKeyed
          (record w { redis = p.redis.set_ex w.redis w.now (ott_exchange_key h) (text s) ttl })
  index-IsKeyed w h s ttl keyed later id = ground (
    arith,
    keyed later id,
    p.redis.get-set_ex w.redis w.now later ttl (ott_exchange_key h) (auth_session_key id) (text s),
  )

  create-IsKeyed :
      (w : World p) (user_id : String) (config : TenantConfig) (type : OneTimeTokenType)
      → IsKeyed w
      → IsKeyed (create user_id type config w).1
  unfolding create
  create-IsKeyed w user_id config type keyed later id =
      token-IsKeyed w user_id (p.sha256 (p.random_hex w.draws)) type (ttl_seconds p type config)
        keyed later id

  create_exchange-IsKeyed :
      (w : World p) (user_id session_id : String)
      → IsKeyed w
      → IsKeyed (create_exchange_token user_id session_id w).1
  unfolding create_exchange_token
  create_exchange-IsKeyed w user_id session_id keyed =
      let drawn = record w { draws = suc w.draws } in
      let h = p.sha256 (p.random_hex w.draws) in
      let ttl = p.authora.ott_exchange_ttl_sec in
      let both = λ (v : World p) (kept : IsKeyed v).
        index-IsKeyed
          (record v {
            redis = p.redis.set_ex v.redis v.now (ott_key user_id exchange) (text h) ttl;
          })
          h session_id ttl (token-IsKeyed v user_id h exchange ttl kept) in
      elim (Option-cases (text_at w (ott_key user_id exchange))) [
        | inl e ↦ rw e (both drawn keyed)
        | inr (old, e) ↦ rw e (
            both (record drawn { redis = p.redis.del w.redis (ott_exchange_key old) })
              (del-IsKeyed drawn (ott_exchange_key old) keyed))
      ]

  consume-IsKeyed :
      (w : World p) (user_id clear_token : String) (type : OneTimeTokenType)
      → IsKeyed w
      → IsKeyed (consume user_id clear_token type w).1
  unfolding consume
  consume-IsKeyed w user_id clear_token type keyed =
      elim (Option-cases (text_at w (ott_key user_id type))) [
        | inl e ↦ rw e keyed
        | inr (h, e) ↦ rw e (elim (Bool-cases (h == p.sha256 clear_token)) [
          | inl hit ↦ rw hit (del-IsKeyed w (ott_key user_id type) keyed)
          | inr miss ↦ rw miss keyed
        ])
      ]

  del_keys-IsKeyed : (ks : List Key) (w : World p) → IsKeyed w → IsKeyed (del_keys ks w).1
  unfolding del_keys
  del_keys-IsKeyed [] w keyed = keyed
  del_keys-IsKeyed (k ∷ ks) w keyed = del_keys-IsKeyed ks _ (del-IsKeyed w k keyed)

  consume_session-IsKeyed :
      (w : World p) (k : Key) (s : AuthSession) (user : Option String)
      → IsKeyed w
      → IsKeyed (consume_session k s user w).1
  unfolding del_keys
  consume_session-IsKeyed w k s none keyed = keyed
  consume_session-IsKeyed w k s (some user_id) keyed =
      let both = k ∷ ott_key user_id exchange ∷ [] in
      >>=-keeps IsKeyed (Sessions.delete s) (λ _. pure s) (del_keys both w).1
        (delete-IsKeyed (del_keys both w).1 s (del_keys-IsKeyed both w keyed)) (λ x v kept. kept)

  consume_exchange-IsKeyed :
      (w : World p) (clear_token : String)
      → IsKeyed w
      → IsKeyed (consume_exchange_token clear_token w).1
  unfolding consume_exchange_token
  consume_exchange-IsKeyed w clear_token keyed =
      let k = ott_exchange_key (p.sha256 clear_token) in
      elim (Option-cases (text_at w k)) [
        | inl e ↦ rw e keyed
        | inr (id, e) ↦ rw e (elim (Option-cases (stored w id)) [
          | inl f ↦ rw f keyed
          | inr (s, f) ↦ rw f (consume_session-IsKeyed w k s s.user_id keyed)
        ])
      ]

  revoke_all-IsKeyed :
      (w : World p) (user_id : String) → IsKeyed w → IsKeyed (revoke_all_for_user user_id w).1
  unfolding revoke_all_for_user
  revoke_all-IsKeyed w user_id =
      del_keys-IsKeyed (collect user_id (text_at w (ott_key user_id exchange)) all_types) w

  Step-IsKeyed : {v w : World p} → Step v w → IsKeyed v → IsKeyed w
  Step-IsKeyed (wait v later) keyed = keyed
  Step-IsKeyed (open_first_party v t f) keyed = (sessions-IsKeyed v t f "" "" unused keyed).0
  Step-IsKeyed (open_third_party v t r c) keyed = (sessions-IsKeyed v t "" r c unused keyed).1
  Step-IsKeyed (update v s) keyed = update-IsKeyed v s keyed
  Step-IsKeyed (delete v s) keyed = delete-IsKeyed v s keyed
  Step-IsKeyed (create_token v u t type) keyed = create-IsKeyed v u t type keyed
  Step-IsKeyed (create_exchange v u s) keyed = create_exchange-IsKeyed v u s keyed
  Step-IsKeyed (consume_token v u c type) keyed = consume-IsKeyed v u c type keyed
  Step-IsKeyed (consume_exchange v c) keyed = consume_exchange-IsKeyed v c keyed
  Step-IsKeyed (revoke_all v u) keyed = revoke_all-IsKeyed v u keyed

  Reachable-IsKeyed : {start w : World p} → Reachable start w → IsKeyed start → IsKeyed w
  Reachable-IsKeyed here keyed = keyed
  Reachable-IsKeyed (after before step) keyed = Step-IsKeyed step (Reachable-IsKeyed before keyed)

  -- From a store where every session is under its own id, after any sequence of the operations on
  -- sessions and one-time tokens, at any times, a session that is found under an id has that id.
  pub Reachable-session_id :
      (start w : World p) (id : String) (s : AuthSession)
      → IsKeyed start
      → Reachable start w
      → stored w id ≡ some s
      → s.id ≡ id
  Reachable-session_id start w id s keyed reached found =
      keyed_id w w.now id s (Reachable-IsKeyed reached keyed) found
