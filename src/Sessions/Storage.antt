-- ===== src/Sessions/Storage.antt =====
-- auth-session-redis.service.ts: what `findById` finds after each write.
use authora.Prelude.{
  Bool, true, ◌+◌, ◌*◌, ℕ, ◌<◌, ◌≡◌, refl, ap, ◌∙◌, inl, inr, Bool-cases, eq_iff, leb, Option, none,
  String, some, arith, ◌==◌, if◌then◌else◌,
}
use authora.Model.{AuthSession, first_party, third_party}
use authora.Redis.{session}
use authora.Redis.Keys.{auth_session_key, auth_session_user_key}
use authora.Exec.{ok, err, invalid_auth_session}
use authora.World.{Platform, World}
use authora.Sessions.{
  stored, as_session, create_first_party, create_third_party, update, delete, del_user_key, persist,
  fresh_session,
}

-- nothing, or a session with this id
abbrev pub is_keyed_to : String → Option AuthSession → Bool
is_keyed_to id none = true
is_keyed_to id (some s) = s.id == id

module _ {p : Platform} where
  -- the seconds that a session's key has left
  abbrev pub seconds_left : World p → String → ℕ
  seconds_left w id = p.redis.ttl w.redis w.now (auth_session_key id)

  abbrev pub write : World p → AuthSession → World p
  write w s = record w {
    redis = p.redis.set_ex w.redis w.now (auth_session_key s.id) (session s) (seconds_left w s.id);
  }

  pub stored-write :
      (w : World p) (s : AuthSession) (id : String)
      → 0 < seconds_left w s.id
      → stored (write w s) id ≡ (if s.id == id then some s else stored w id)
  stored-write w s id h = ground (
    arith,
    p.redis.get-set_ex w.redis w.now w.now (seconds_left w s.id) (auth_session_key s.id)
        (auth_session_key id) (session s),
  )

  pub update_lem :
      (w : World p) (s : AuthSession) → 0 < seconds_left w s.id → update s w ≡ (ok tt, write w s)
  unfolding update
  update_lem w s h = ground arith

  pub update_expired :
      (w : World p) (s : AuthSession)
      → seconds_left w s.id ≡ 0
      → update s w ≡ (err invalid_auth_session, w)
  unfolding update
  update_expired w s h = ground arith

  pub update-eq-ok :
      (w w' : World p) (s : AuthSession)
      → update s w ≡ (ok tt, w')
      → (0 < seconds_left w s.id) × (w' ≡ write w s)
  unfolding update
  update-eq-ok w w' s h = ground arith

  -- the session under an id at a later time, if nothing else is done
  abbrev pub stored_at : World p → ℕ → String → Option AuthSession
  stored_at w later id = as_session (p.redis.get w.redis later (auth_session_key id))

  stored_at-del_user_key :
      (w : World p) (later : ℕ) (user_id : Option String) (id : String)
      → stored_at (del_user_key user_id w).1 later id ≡ stored_at w later id
  stored_at-del_user_key w later none id = refl
  stored_at-del_user_key w later (some user_id) id =
      ground
        (arith, p.redis.get-del w.redis later (auth_session_user_key user_id) (auth_session_key id))

  del_user_key_returns :
      (w : World p) (user_id : Option String) → (del_user_key user_id w).0 ≡ ok tt
  del_user_key_returns w none = refl
  del_user_key_returns w (some user_id) = refl

  del_user_key_now :
      (w : World p) (user_id : Option String) → (del_user_key user_id w).1.now ≡ w.now
  del_user_key_now w none = refl
  del_user_key_now w (some user_id) = refl

  pub stored_at-delete :
      (w : World p) (later : ℕ) (s : AuthSession) (id : String)
      → stored_at (delete s w).1 later id ≡ (if s.id == id then none else stored_at w later id)
  unfolding delete
  stored_at-delete w later s id =
      rw stored_at-del_user_key (
        ground (arith, p.redis.get-del w.redis later (auth_session_key s.id) (auth_session_key id)))

  pub delete_returns : (w : World p) (s : AuthSession) → (delete s w).0 ≡ ok tt
  unfolding delete
  delete_returns w s = del_user_key_returns _ s.user_id

  pub delete_now : (w : World p) (s : AuthSession) → (delete s w).1.now ≡ w.now
  unfolding delete
  delete_now w s = del_user_key_now _ s.user_id

  pub stored-delete :
      (w : World p) (s : AuthSession) (id : String)
      → stored (delete s w).1 id ≡ (if s.id == id then none else stored w id)
  stored-delete w s id =
      ap (λ t. as_session (p.redis.get (delete s w).1.redis t (auth_session_key id)))
        (delete_now w s)
      ∙ stored_at-delete w w.now s id

  -- Every session is stored under its own id, now and as long as its key lives.
  abbrev pub IsKeyed : World p → Type 0
  IsKeyed w =
      (later : ℕ) (id : String)
      → is_keyed_to id (as_session (p.redis.get w.redis later (auth_session_key id))) ≡ true

  pub keyed_id :
      (w : World p) (later : ℕ) (id : String) (s : AuthSession)
      → IsKeyed w
      → as_session (p.redis.get w.redis later (auth_session_key id)) ≡ some s
      → s.id ≡ id
  keyed_id w later id s keyed h = ground (arith, keyed later id, eq_iff s.id id)

  pub write-IsKeyed : (w : World p) (s : AuthSession) → IsKeyed w → IsKeyed (write w s)
  write-IsKeyed w s keyed later id = ground (
    arith,
    keyed later id,
    eq_iff s.id id,
    p.redis.get-set_ex w.redis w.now later (seconds_left w s.id) (auth_session_key s.id)
        (auth_session_key id) (session s),
  )

  pub update-IsKeyed : (w : World p) (s : AuthSession) → IsKeyed w → IsKeyed (update s w).1
  update-IsKeyed w s keyed = elim (Bool-cases (leb (seconds_left w s.id) 0)) [
    | inl gone ↦ rw (update_expired w s (ground arith)) keyed
    | inr alive ↦ rw (update_lem w s (ground arith)) (write-IsKeyed w s keyed)
  ]

  -- the session that `_persist` makes of the fields
  abbrev pub made : World p → AuthSession → AuthSession
  made w fields = record fields {
    id = p.uuid w.draws;
    created_at = w.now;
    expires_at = w.now + p.authora.auth_session_ttl_sec * 1000;
  }

  persist-IsKeyed :
      (w : World p) (fields : AuthSession)
      → fields.user_id ≡ none
      → IsKeyed w
      → IsKeyed (persist fields w).1
  unfolding persist
  persist-IsKeyed w fields anonymous keyed later id = ground (
    arith,
    keyed later id,
    eq_iff (p.uuid w.draws) id,
    p.redis.get-set_ex w.redis w.now later p.authora.auth_session_ttl_sec
        (auth_session_key (p.uuid w.draws)) (auth_session_key id) (session (made w fields)),
  )

  pub delete-IsKeyed : (w : World p) (s : AuthSession) → IsKeyed w → IsKeyed (delete s w).1
  delete-IsKeyed w s keyed later id = ground (arith, keyed later id, stored_at-delete w later s id)

  -- If every session is stored under its own id, now and at every later time, this is still so
  -- after a session was created for either mode, updated or deleted.
  pub sessions-IsKeyed :
      (w : World p) (tenant_id fingerprint redirect_uri code_challenge : String) (s : AuthSession)
      → IsKeyed w
      → IsKeyed (create_first_party tenant_id fingerprint w).1
        × IsKeyed (create_third_party tenant_id redirect_uri code_challenge w).1
        × IsKeyed (update s w).1
        × IsKeyed (delete s w).1
  unfolding create_first_party create_third_party
  sessions-IsKeyed w tenant_id fingerprint redirect_uri code_challenge s keyed = (
    persist-IsKeyed w (fresh_session tenant_id first_party (some fingerprint) none none) refl keyed,
    persist-IsKeyed w
        (fresh_session tenant_id third_party none (some redirect_uri) (some code_challenge)) refl
        keyed,
    update-IsKeyed w s keyed,
    delete-IsKeyed w s keyed,
  )
