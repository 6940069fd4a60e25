-- ===== src/RefreshTokens/Active.antt =====
-- refresh-token-entity.service.ts: which tokens are active once a token was created, rotated or
-- reused.
use authora.Prelude.{
  eqb, leb, ℕ, suc, ◌+◌, ◌*◌, ◌≡◌, refl, sym, subst, String, Bool, true, false, not, ◌&&◌, Option,
  none, some, List, [], ◌∷◌, arith, if◌then◌else◌, Bool-cases, Member, inl, inr, ◌==◌, eq_refl, All,
  All-map_each, select, select_none,
}
use authora.Model.{RefreshTokenEntity, UserEntity, LockReason, suspicious_activity}
use authora.Redis.Keys.{token_reuse_key}
use authora.Config.{TenantConfig}
use authora.Users
use authora.Exec.{
  when, modify, throw, or_throw, ◌>>=◌, ◌>>◌, ok, err, Exception, token_reuse_detected,
  tenant_not_found,
}
use authora.World.{Platform, World}
use authora.RefreshTokens.{first_match, revoke, active_for, create, rotate, handle_token_reuse}

-- a token of the family that is not revoked
abbrev pub is_alive_in : String → RefreshTokenEntity → Bool
is_alive_in family t = t.family == family && not t.revoked

-- what a reuse is answered with: the settings of the tenant '' are read before the exception
abbrev pub reuse_answer : Option TenantConfig → Exception
reuse_answer none = tenant_not_found
reuse_answer (some config) = token_reuse_detected

module _ (p : Platform) where
  -- A token that is found has the clear text, and is one of the list.
  pub first_match-some :
      (clear : String) (ts : List RefreshTokenEntity) (t : RefreshTokenEntity)
      → first_match p clear ts ≡ some t
      → (p.argon2_verify t.token_hash clear ≡ true) × Member t ts
  unfolding first_match
  first_match-some clear [] t h = absurd (cc)
  first_match-some clear (x ∷ xs) t h = elim (Bool-cases (p.argon2_verify x.token_hash clear)) [
    | inl hit ↦
        let same : x ≡ t = ground arith in
        subst (λ r. (p.argon2_verify r.token_hash clear ≡ true) × Member r (x ∷ xs)) same
          (hit, inl refl)
    | inr miss ↦
        let (holds, there) = first_match-some clear xs t (ground arith) in (holds, inr there)
  ]

module _ {p : Platform} where
  abbrev pub token_rows : World p → List RefreshTokenEntity
  token_rows w = p.refresh_tokens.rows w.refresh_tokens

  -- Once the rows that pass a test on unrevoked tokens are revoked, none passes it.
  pub none_left :
      (w : World p) (test : RefreshTokenEntity → Bool)
      → ((t : RefreshTokenEntity) → test (revoke t) ≡ false)
      → All
          (λ t. test t ≡ false)
          (p.refresh_tokens.rows (p.refresh_tokens.update test revoke w.refresh_tokens))
  none_left w test fails =
      rw (p.refresh_tokens.rows-update test revoke w.refresh_tokens)
        (All-map_each (λ t. test t ≡ false) _ _ failing)
    where
      failing : (t : RefreshTokenEntity) → test (if test t then revoke t else t) ≡ false
      failing t = elim (Bool-cases (test t)) [ inl e ↦ rw e (fails t) | inr e ↦ rw (e, e) refl ]

  -- the token that `create` makes
  abbrev pub created_token : World p → UserEntity → ℕ → String → RefreshTokenEntity
  created_token w u expiration_seconds jwt = record {
    id = p.uuid (suc (suc (suc w.draws)));
    user_id = u.id;
    token_hash =
        p.argon2_hash p.authora.hash_memory_cost p.authora.hash_time_cost p.authora.hash_parallelism
          (suc w.draws) (p.random_hex w.draws);
    family = p.uuid (suc (suc w.draws));
    jwt = jwt;
    revoked = false;
    expired_at = w.now + expiration_seconds * 1000;
    created_at = w.now;
  }

  -- After a refresh token was created for a user, it is the only active one of that user.
  pub create_only_active :
      (w : World p) (u : UserEntity) (expiration_seconds : ℕ) (jwt : String)
      → select (active_for u.id) (token_rows (create u expiration_seconds jwt w).1)
        ≡ created_token w u expiration_seconds jwt ∷ []
  unfolding create
  create_only_active w u expiration_seconds jwt =
      let rest =
        select_none (active_for u.id) _ (none_left w (active_for u.id) (λ t. ground arith)) in
      rw (p.refresh_tokens.rows-insert _ _) (ground (arith, rest, eq_refl u.id))

  lock_lem :
      (w : World p) (u : UserEntity) (reason : LockReason)
      → ((Users.lock u reason w).0 ≡ ok tt)
        × ((Users.lock u reason w).1.refresh_tokens ≡ w.refresh_tokens)
  unfolding Users.lock
  lock_lem w u reason = (ground arith, ground arith)

  both_writes :
      (w : World p) (u : UserEntity) (first many : Bool) (ttl : ℕ)
      → let r =
          (when first (
                modify (λ v. record v {
                  redis = p.redis.expire v.redis v.now (token_reuse_key u.id) ttl;
                }))
              >> (when many (Users.lock u suspicious_activity)
                  >> throw {A = Unit} token_reuse_detected))
            w in
        (r.0 ≡ err token_reuse_detected) × (r.1.refresh_tokens ≡ w.refresh_tokens)
  both_writes w u false false ttl = (refl, refl)
  both_writes w u true false ttl = (refl, refl)
  both_writes w u false true ttl =
      let (returned, kept) = lock_lem w u suspicious_activity in (ground arith, ground arith)
  both_writes w u true true ttl =
      let (returned, kept) =
        lock_lem (record w { redis = p.redis.expire w.redis w.now (token_reuse_key u.id) ttl }) u
          suspicious_activity in
      (ground arith, ground arith)

  -- the end of `handleTokenReuse`: it throws, and leaves the refresh tokens alone
  rest_of_reuse :
      (w : World p) (u : UserEntity) (first : Bool) (count : ℕ) (answer : Option TenantConfig)
      → let r =
          (or_throw tenant_not_found answer >>= λ config.
          when first (
            modify (λ v. record v {
              redis =
                  p.redis.expire v.redis v.now (token_reuse_key u.id) config.token_reuse_window_sec;
            }))
          >> (when
                (leb config.token_reuse_max_compromised_families count)
                (Users.lock u suspicious_activity)
              >> throw {A = Unit} token_reuse_detected))
            w in
        (r.0 ≡ err (reuse_answer answer)) × (r.1.refresh_tokens ≡ w.refresh_tokens)
  rest_of_reuse w u first count none = (refl, refl)
  rest_of_reuse w u first count (some config) =
      both_writes w u first (leb config.token_reuse_max_compromised_families count)
        config.token_reuse_window_sec

  -- The handling of a reused token always throws: "token reuse detected", or "tenant not found" if
  -- the settings cannot be read. By then no token of its family is active.
  pub handle_token_reuse_lem :
      (w : World p) (t : RefreshTokenEntity) (u : UserEntity)
      → ((handle_token_reuse t u w).0 ≡ err (reuse_answer p.no_tenant))
        × All (λ r. is_alive_in t.family r ≡ false) (token_rows (handle_token_reuse t u w).1)
  unfolding handle_token_reuse
  handle_token_reuse_lem w t u =
      let (count, store) = p.redis.incr w.redis w.now (token_reuse_key u.id) in
      let v = record w {
        refresh_tokens = p.refresh_tokens.update (is_alive_in t.family) revoke w.refresh_tokens;
        redis = store;
      } in
      let (thrown, kept) = rest_of_reuse v u (eqb count 1) count p.no_tenant in
      (
        thrown,
        subst (λ t'. All (λ r. is_alive_in t.family r ≡ false) (p.refresh_tokens.rows t'))
            (sym kept) (none_left w (is_alive_in t.family) (λ r. ground arith)),
      )

  -- What a rotation leaves: a new token of the same family and with the same end, before the old
  -- tokens, among which the rotated one is no longer active.
  pub record IsRotated (t : RefreshTokenEntity) (w w' : World p) : Type 0 where
    pub successor : RefreshTokenEntity
    pub others : List RefreshTokenEntity
    pub listed_first : token_rows w' ≡ successor ∷ others
    pub same_user : successor.user_id ≡ t.user_id
    pub same_family : successor.family ≡ t.family
    pub same_end : successor.expired_at ≡ t.expired_at
    pub active : successor.revoked ≡ false
    pub spent : All (λ r. (r.id == t.id && not r.revoked) ≡ false) others

  pub rotate_lem :
      (w : World p) (t : RefreshTokenEntity) (u : UserEntity) (jwt : String)
      → t.user_id ≡ u.id
      → ((rotate t u jwt w).0 ≡ ok (p.random_hex w.draws)) × IsRotated t w (rotate t u jwt w).1
  unfolding rotate
  rotate_lem w t u jwt owner = (
    refl,
    record {
      successor = _;
      others = _;
      listed_first = p.refresh_tokens.rows-insert _ _;
      same_user = sym owner;
      same_family = refl;
      same_end = refl;
      active = refl;
      spent =
          rw (p.refresh_tokens.rows-update (λ r. r.id == t.id) revoke w.refresh_tokens)
            (All-map_each (λ r. (r.id == t.id && not r.revoked) ≡ false) _ _ spent_row);
    },
  )
    where
      spent_row :
          (r : RefreshTokenEntity)
          → (let r' = if r.id == t.id then revoke r else r in r'.id == t.id && not r'.revoked)
            ≡ false
      spent_row r = elim (Bool-cases (r.id == t.id)) [
        | inl e ↦ rw e (ground arith)
        | inr e ↦ rw e (ground arith)
      ]
