-- ===== src/SignIn/Exchange.antt =====
-- sign-in.service.ts and one-time-token-redis.service.ts: the exchange token of the third-party
-- mode, which `exchange` makes, once for a session.
use authora.Prelude.{
  ◌<◌, ◌≡◌, refl, ◌∙◌, subst, String, true, false, Option, none, some, arith, eq_refl, Option-cases,
  suc, inl, inr,
}
use authora.Model.{AuthSession, UserEntity}
use authora.Model
use authora.Redis.{text}
use authora.Redis.Keys.{ott_key, ott_exchange_key, auth_session_key}
use authora.Exec.{pure, ok, err, ◌>>=◌, ◌>>◌, >>=-eq-ok, session_not_found}
use authora.World.{Platform, World}
use authora.Sessions.{stored}
use authora.Sessions.Storage.{seconds_left, write, stored-write, update-eq-ok, IsKeyed, keyed_id}
use authora.Sessions
use authora.Tokens.{text_at, create_exchange_token}
use authora.SignIn.{get_session}
use authora.SignIn.Completion.{exchange, exchange_session, completed_user}
use authora.SignIn.Gate.{
  IsComplete, IsUserOf, lacks_second_factor, has_second_factor, get_session_lem, get_session-eq-ok,
  completed_user-eq-ok, IsUserOf-row,
}

module _ {p : Platform} where
  -- Redis without the reverse index of the user's earlier exchange token
  abbrev pub dropped : World p → Option String → p.redis.Store
  dropped w none = w.redis
  dropped w (some h) = p.redis.del w.redis (ott_exchange_key h)

  -- the hash of the next exchange token
  abbrev pub next_hash : World p → String
  next_hash w = p.sha256 (p.random_hex w.draws)

  -- the world once an exchange token was made
  abbrev pub with_token : World p → String → String → World p
  with_token w user_id session_id = record w {
    draws = suc w.draws;
    redis =
        p.redis.set_ex
          (p.redis.set_ex (dropped w (text_at w (ott_key user_id Model.exchange))) w.now
            (ott_key user_id Model.exchange) (text (next_hash w)) p.authora.ott_exchange_ttl_sec)
          w.now (ott_exchange_key (next_hash w)) (text session_id) p.authora.ott_exchange_ttl_sec;
  }

  pub create_exchange_token_lem :
      (w : World p) (user_id session_id : String)
      → create_exchange_token user_id session_id w
        ≡ (ok (p.random_hex w.draws), with_token w user_id session_id)
  unfolding create_exchange_token
  create_exchange_token_lem w user_id session_id =
      elim (Option-cases (text_at w (ott_key user_id Model.exchange))) [
        | inl e ↦ rw e
        | inr (h, e) ↦ rw e
      ]

  get-dropped :
      (w : World p) (existing : Option String) (id : String)
      → p.redis.get (dropped w existing) w.now (auth_session_key id)
        ≡ p.redis.get w.redis w.now (auth_session_key id)
  get-dropped w none id = refl
  get-dropped w (some h) id =
      ground (arith, p.redis.get-del w.redis w.now (ott_exchange_key h) (auth_session_key id))

  -- An exchange token leaves the sessions alone.
  stored-with_token :
      (w : World p) (user_id session_id id : String)
      → stored (with_token w user_id session_id) id ≡ stored w id
  stored-with_token w user_id session_id id =
      rw
        (p.redis.get-set_ex _ w.now w.now _ (ott_exchange_key (next_hash w)) (auth_session_key id)
          _)
        (rw
          (p.redis.get-set_ex _ w.now w.now _ (ott_key user_id Model.exchange) (auth_session_key id)
            _)
          (rw (get-dropped w (text_at w (ott_key user_id Model.exchange)) id)))

  -- the world once `exchange` returned
  abbrev pub exchanged_world : World p → AuthSession → UserEntity → World p
  exchanged_world w s u = write (with_token w u.id s.id) (record s { exchanged = true })

  finish_exchange :
      (w w' : World p) (s : AuthSession) (u : UserEntity) (tok : String)
      → (create_exchange_token u.id s.id >>= λ t.
            Sessions.update (record s { exchanged = true }) >> pure t)
          w
        ≡ (ok tok, w')
      → (tok ≡ p.random_hex w.draws)
        × (0 < seconds_left (with_token w u.id s.id) s.id)
        × (w' ≡ exchanged_world w s u)
  finish_exchange w w' s u tok h =
      let made = create_exchange_token_lem w u.id s.id in
      let (_, v, updated, rest) =
        >>=-eq-ok (Sessions.update (record s { exchanged = true }))
          (λ _. pure (p.random_hex w.draws)) (with_token w u.id s.id) (rw made at h) in
      let (alive, same) =
        update-eq-ok (with_token w u.id s.id) v (record s { exchanged = true }) updated in
      (ground (arith, rest), alive, ground (arith, rest, same))

  pub exchange-eq-ok :
      (w w' : World p) (id tok : String)
      → exchange id w ≡ (ok tok, w')
      → (s : AuthSession) × (u : UserEntity) × (stored w id ≡ some s)
        × IsComplete s
        × IsUserOf w s u
        × (tok ≡ p.random_hex w.draws)
        × (0 < seconds_left (with_token w u.id s.id) s.id)
        × (w' ≡ exchanged_world w s u)
  unfolding exchange
  exchange-eq-ok w w' id tok h =
      let (s, w₁, got, h₁) = >>=-eq-ok (get_session id) _ w h in
      let (there, same₁) = get_session-eq-ok w w₁ id s got in
      let (u, w₂, passed, h₂) = >>=-eq-ok (completed_user s) _ w₁ h₁ in
      let (complete, (user_id, named, found), same₂) = completed_user-eq-ok w₁ w₂ s u passed in
      let back = λ (v : World p). IsUserOf v s u in
      let end = λ (v : World p).
        (tok ≡ p.random_hex v.draws)
        × (0 < seconds_left (with_token v u.id s.id) s.id)
        × (w' ≡ exchanged_world v s u) in
      let (fresh, alive, same) = subst end (same₂ ∙ same₁) (finish_exchange w₂ w' s u tok h₂) in
      (
        s,
        u,
        there,
        complete,
        subst back same₁ (IsUserOf-row w₁ s u user_id named found),
        fresh,
        alive,
        same,
      )

  pub stored-exchanged_world :
      (w : World p) (s : AuthSession) (u : UserEntity)
      → 0 < seconds_left (with_token w u.id s.id) s.id
      → stored (exchanged_world w s u) s.id ≡ some (record s { exchanged = true })
  stored-exchanged_world w s u alive =
      stored-write (with_token w u.id s.id) (record s { exchanged = true }) s.id alive
      ∙ ground (arith, eq_refl s.id)

  exchanged_refused :
      (w : World p) (s : AuthSession)
      → stored w s.id ≡ some s
      → s.primary_auth_verified ≡ true
      → lacks_second_factor s ≡ false
      → s.exchanged ≡ true
      → (exchange s.id w ≡ (err session_not_found, w))
        × (exchange_session s.id w ≡ (err session_not_found, w))
  unfolding exchange exchange_session completed_user
  exchanged_refused w s there first second done =
      let got = get_session_lem w s.id s there refl in
      (rw (got, exchange) (ground arith), rw (got, exchange_session) (ground arith))

  -- In a store where every session is under its own id: once `exchange` has made a token for a
  -- session, both `exchange` and `exchangeSession` on that session answer "session not found" and
  -- change nothing.
  pub exchange_used_up :
      (w w' : World p) (id tok : String)
      → IsKeyed w
      → exchange id w ≡ (ok tok, w')
      → (exchange id w' ≡ (err session_not_found, w'))
        × (exchange_session id w' ≡ (err session_not_found, w'))
  exchange_used_up w w' id tok keyed h =
      let (s, u, there, complete, who, fresh, alive, same) = exchange-eq-ok w w' id tok h in
      let again =
        exchanged_refused (exchanged_world w s u) (record s { exchanged = true })
          (stored-exchanged_world w s u alive) complete.first_factor (has_second_factor s complete)
          refl in
      rw (← keyed_id w w.now id s keyed there) (rw same again)
