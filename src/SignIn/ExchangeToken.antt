-- ===== src/SignIn/ExchangeToken.antt =====
-- sign-in.service.ts and one-time-token-redis.service.ts: what `token` makes of an exchange token.
use authora.Prelude.{
  ◌<◌, ◌≡◌, refl, sym, ◌∙◌, ap, subst, String, true, Option, none, some, arith, ◌==◌, eq_refl,
  or_else,
}
use authora.Model.{AuthSession, UserEntity}
use authora.Model
use authora.Redis.Keys.{
  ott_key, ott_exchange_key, auth_session_key, auth_session_user_key, same_key_refl,
}
use authora.Exec.{ok, err, invalid_token, Result}
use authora.World.{Platform, World}
use authora.Sessions.{stored}
use authora.Sessions.Storage.{seconds_left, write, delete_returns, delete_now, IsKeyed}
use authora.Sessions
use authora.Tokens.{text_at, ttl_seconds, create_exchange_token, consume_exchange_token}
use authora.Tokens
use authora.SignIn.{SignInOutput, issue_tokens}
use authora.SignIn.Completion.{exchange, token}
use authora.SignIn.Gate.{IsUserOf, issued}
use authora.SignIn.Exchange.{
  with_token, next_hash, exchanged_world, exchange-eq-ok, stored-exchanged_world,
}

module _ {p : Platform} where
  index-with_token :
      (w : World p) (user_id session_id : String)
      → 0 < p.authora.ott_exchange_ttl_sec
      → text_at (with_token w user_id session_id) (ott_exchange_key (next_hash w)) ≡ some session_id
  index-with_token w user_id session_id h =
      rw
        (p.redis.get-set_ex _ w.now w.now _ (ott_exchange_key (next_hash w))
          (ott_exchange_key (next_hash w)) _)
        (ground (arith, eq_refl (next_hash w)))

  -- writing a session leaves the reverse indices alone
  index-write :
      (w : World p) (s : AuthSession) (h : String)
      → text_at (write w s) (ott_exchange_key h) ≡ text_at w (ott_exchange_key h)
  index-write w s h =
      rw (p.redis.get-set_ex _ w.now w.now _ (auth_session_key s.id) (ott_exchange_key h) _)

  -- the world once an exchange token and its session are used
  abbrev pub consumed : World p → String → AuthSession → String → World p
  consumed w clear s user_id =
      (Sessions.delete s (record w {
        redis =
            p.redis.del (p.redis.del w.redis (ott_exchange_key (p.sha256 clear)))
              (ott_key user_id Model.exchange);
      })).1

  consume_exchange_token_lem :
      (w : World p) (clear session_id user_id : String) (s : AuthSession)
      → text_at w (ott_exchange_key (p.sha256 clear)) ≡ some session_id
      → stored w session_id ≡ some s
      → s.user_id ≡ some user_id
      → consume_exchange_token clear w ≡ (ok s, consumed w clear s user_id)
  unfolding consume_exchange_token
  consume_exchange_token_lem w clear session_id user_id s indexed there named = rw indexed (
      rw there (
        subst
          (λ o.
            Tokens.consume_session (ott_exchange_key (p.sha256 clear)) s o w
            ≡ (ok s, consumed w clear s user_id))
          (sym named) (ground (arith, delete_returns _ s))))

  index-del_user_key :
      (w : World p) (o : Option String) (h : String)
      → text_at (Sessions.del_user_key o w).1 (ott_exchange_key h) ≡ text_at w (ott_exchange_key h)
  index-del_user_key w none h = refl
  index-del_user_key w (some user_id) h =
      ground
        (arith, p.redis.get-del w.redis w.now (auth_session_user_key user_id) (ott_exchange_key h))

  index-consumed :
      (w : World p) (clear user_id : String) (s : AuthSession)
      → text_at (consumed w clear s user_id) (ott_exchange_key (p.sha256 clear)) ≡ none
  unfolding Sessions.delete
  index-consumed w clear user_id s =
      let k = ott_exchange_key (p.sha256 clear) in
      rw index-del_user_key (
        rw (p.redis.get-del _ w.now (auth_session_key s.id) k) (
          rw (p.redis.get-del _ w.now (ott_key user_id Model.exchange) k)
            (rw (p.redis.get-del w.redis w.now k k) (ground (arith, same_key_refl k)))))

  token_unknown :
      (w : World p) (clear : String)
      → text_at w (ott_exchange_key (p.sha256 clear)) ≡ none
      → token clear w ≡ (err invalid_token, w)
  unfolding token consume_exchange_token
  token_unknown w clear h = rw h

  users-delete : (w : World p) (s : AuthSession) → (Sessions.delete s w).1.users ≡ w.users
  unfolding Sessions.delete
  users-delete w s = users-del_user_key _ s.user_id
    where
      users-del_user_key :
          (v : World p) (o : Option String) → (Sessions.del_user_key o v).1.users ≡ v.users
      users-del_user_key v none = refl
      users-del_user_key v (some user_id) = refl

  -- `token`, on a token whose session is stored and whose user exists
  token_lem :
      (w : World p) (clear session_id : String) (s : AuthSession) (u : UserEntity)
      → text_at w (ott_exchange_key (p.sha256 clear)) ≡ some session_id
      → stored w session_id ≡ some s
      → IsUserOf w s u
      → token clear w ≡ issue_tokens u s.tenant_id s.remember_me (consumed w clear s u.id)
  unfolding token
  token_lem w clear session_id s u indexed there (named, row) =
      rw (consume_exchange_token_lem w clear session_id u.id s indexed there named, token)
        (rw (looked, token) refl)
    where
      looked :
          p.users.find_one (λ r. r.id == or_else s.user_id "") (consumed w clear s u.id).users
          ≡ some u
      looked =
          ap (p.users.find_one (λ r. r.id == or_else s.user_id "")) (users-delete _ s)
          ∙ subst (λ o. p.users.find_one (λ r. r.id == or_else o "") w.users ≡ some u) (sym named)
              row

  -- `token` twice, after `exchange`
  token_twice :
      (w : World p) (s : AuthSession) (u : UserEntity)
      → 0 < p.authora.ott_exchange_ttl_sec
      → 0 < seconds_left (with_token w u.id s.id) s.id
      → IsUserOf w s u
      → let tok = p.random_hex w.draws in
        let v = exchanged_world w s u in
        (out : SignInOutput) × ((token tok v).0 ≡ ok out)
        × (out.access_token ≡ p.sign u.id u.email w.now)
        × ((token tok (token tok v).1).0 ≡ err invalid_token)
  unfolding issue_tokens
  token_twice w s u ttl alive (named, row) =
      let tok = p.random_hex w.draws in
      let v = exchanged_world w s u in
      let s' : AuthSession = record s { exchanged = true } in
      let indexed =
        index-write (with_token w u.id s.id) s' (next_hash w) ∙ index-with_token w u.id s.id ttl in
      let step =
        token_lem v tok s.id s' u indexed (stored-exchanged_world w s u alive) (named, row) in
      let used = consumed v tok s' u.id in
      rw step (
        issued used u s.tenant_id s.remember_me,
        refl,
        ap (λ t. p.sign u.id u.email t) (delete_now _ s'),
        ap (λ (r : Result SignInOutput × World p). r.0)
            (token_unknown _ tok (index-consumed v tok u.id s')),
      )

  -- With a positive lifetime of exchange tokens and every session under its own id: the token
  -- that `exchange` returned gives, at `token`, the tokens of the session's user, and given a
  -- second time it is refused as invalid.
  pub exchange_then_token :
      (w w' : World p) (id tok : String)
      → IsKeyed w
      → 0 < p.authora.ott_exchange_ttl_sec
      → exchange id w ≡ (ok tok, w')
      → (s : AuthSession) × (u : UserEntity) × (out : SignInOutput) × (stored w id ≡ some s)
        × IsUserOf w s u
        × ((token tok w').0 ≡ ok out)
        × (out.access_token ≡ p.sign u.id u.email w.now)
        × ((token tok (token tok w').1).0 ≡ err invalid_token)
  exchange_then_token w w' id tok keyed ttl h =
      let (s, u, there, complete, who, fresh, alive, same) = exchange-eq-ok w w' id tok h in
      let (out, given, signed, spent) = token_twice w s u ttl alive who in
      (s, u, out, there, who, rw (same, fresh) given, signed, rw (same, fresh) spent)
