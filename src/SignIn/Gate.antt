-- ===== src/SignIn/Gate.antt =====
-- sign-in.service.ts: what a session must have passed before tokens or an exchange token are
-- issued for it (`exchange`, `exchangeSession`).
use authora.Prelude.{
  ◌≡◌, ◌≢◌, sym, ◌∙◌, ap, subst, String, Bool, true, false, not, ◌&&◌, Option, none, some, arith,
  inl, inr, ◌⊎◌, ◌==◌, eq_iff, eq_refl, Option-cases,
}
use authora.Model.{AuthSession, UserEntity, disabled}
use authora.Model.Equality.{is_disabled}
use authora.Exec.{
  ok, err, ◌>>◌, throw_if-bind, or_throw-bind, >>=-eq-ok, session_not_found, mfa_required,
  primary_auth_required, invalid_credentials, or_throw-eq-ok,
}
use authora.World.{Platform, World}
use authora.Sessions.{stored}
use authora.Sessions
use authora.Sessions.Storage.{delete_returns, delete_now, stored-delete}
use authora.SignIn.{SignInOutput, get_session, issue_tokens}
use authora.SignIn.Completion.{completed_user, exchange_session, exchange}

-- The first factor is done; so is the second, or the policy or the device spares it; and no
-- exchange token was made for the session yet.
pub record IsComplete (s : AuthSession) : Type 0 where
  pub first_factor : s.primary_auth_verified ≡ true
  pub second_factor :
      (s.mfa_policy ≡ disabled) ⊎ ((s.mfa_verified ≡ true) ⊎ (s.device_trusted ≡ true))
  pub unused : s.exchanged ≡ false

abbrev pub lacks_second_factor : AuthSession → Bool
lacks_second_factor s = not (is_disabled s.mfa_policy) && not s.mfa_verified && not s.device_trusted

second_factor_of :
    (s : AuthSession)
    → lacks_second_factor s ≡ false
    → (s.mfa_policy ≡ disabled) ⊎ ((s.mfa_verified ≡ true) ⊎ (s.device_trusted ≡ true))
second_factor_of s h = ground arith

pub has_second_factor : (s : AuthSession) → IsComplete s → lacks_second_factor s ≡ false
has_second_factor s c = ground arith

complete :
    (s : AuthSession)
    → not s.primary_auth_verified ≡ false
    → lacks_second_factor s ≡ false
    → s.exchanged ≡ false
    → IsComplete s
complete s first second unused = record {
  first_factor = ground arith;
  second_factor = second_factor_of s second;
  unused = unused;
}

module _ {p : Platform} where
  abbrev pub user_row : World p → String → Option UserEntity
  user_row w id = p.users.find_one (λ u. u.id == id) w.users

  pub get_session-eq-ok :
      (w w' : World p) (id : String) (s : AuthSession)
      → get_session id w ≡ (ok s, w')
      → (stored w id ≡ some s) × (w' ≡ w)
  unfolding get_session
  get_session-eq-ok w w' id s h = elim (Option-cases (stored w id)) [
    | inl e ↦ ground arith
    | inr (t, e) ↦ ground arith
  ]

  pub completed_user-eq-ok :
      (w w' : World p) (s : AuthSession) (u : UserEntity)
      → completed_user s w ≡ (ok u, w')
      → IsComplete s × ((id : String) × (s.user_id ≡ some id) × (user_row w id ≡ some u)) × (w' ≡ w)
  unfolding completed_user
  completed_user-eq-ok w w' s u h =
      let (first, h₁) = throw_if-bind (not s.primary_auth_verified) primary_auth_required _ w h in
      let (second, h₂) = throw_if-bind (lacks_second_factor s) mfa_required _ w h₁ in
      let (unused, h₃) = throw_if-bind s.exchanged session_not_found _ w h₂ in
      let (id, named, h₄) = or_throw-bind invalid_credentials s.user_id _ w h₃ in
      let (found, same) = or_throw-eq-ok invalid_credentials (user_row w id) w h₄ in
      (complete s first second unused, (id, named, found), same)

  pub completed_user_lem :
      (w : World p) (s : AuthSession) (u : UserEntity) (id : String)
      → IsComplete s
      → s.user_id ≡ some id
      → user_row w id ≡ some u
      → completed_user s w ≡ (ok u, w)
  unfolding completed_user
  completed_user_lem w s u id c e f = ground arith

  pub get_session_lem :
      (w : World p) (id : String) (s : AuthSession)
      → stored w id ≡ some s
      → s.id ≡ id
      → get_session id w ≡ (ok s, w)
  unfolding get_session
  get_session_lem w id s h e = ground arith

  pub get_session-none :
      (w : World p) (id : String)
      → stored w id ≡ none
      → get_session id w ≡ (err session_not_found, w)
  unfolding get_session
  get_session-none w id h = ground arith

  -- the answer of `issue_tokens`
  abbrev pub issued : World p → UserEntity → String → Bool → SignInOutput
  issued w u tenant_id remember_me = record {
    access_token = p.sign u.id u.email w.now;
    expires_in = (p.tenant tenant_id).jwt_access_token_expiration_sec;
    refresh_token = p.random_hex w.draws;
  }

  -- A row that is found by its id has it.
  pub user_row_id :
      (w : World p) (id : String) (u : UserEntity) → user_row w id ≡ some u → u.id ≡ id
  user_row_id w id u h = (eq_iff u.id id).0 (p.users.find_one-some (λ r. r.id == id) w.users u h).0

  -- The session's user, as the tables have it.
  abbrev pub IsUserOf : World p → AuthSession → UserEntity → Type 0
  IsUserOf w s u = (s.user_id ≡ some u.id) × (user_row w u.id ≡ some u)

  pub IsUserOf-row :
      (w : World p) (s : AuthSession) (u : UserEntity) (id : String)
      → s.user_id ≡ some id
      → user_row w id ≡ some u
      → IsUserOf w s u
  IsUserOf-row w s u id named found =
      subst (λ i. (s.user_id ≡ some i) × (user_row w i ≡ some u)) (sym (user_row_id w id u found))
        (named, found)

  pub issue_after_delete :
      (w w' : World p) (s : AuthSession) (u : UserEntity) (out : SignInOutput)
      → (Sessions.delete s >> issue_tokens u s.tenant_id s.remember_me) w ≡ (ok out, w')
      → (out.access_token ≡ p.sign u.id u.email w.now) × (stored w' s.id ≡ none)
  unfolding issue_tokens
  issue_after_delete w w' s u out h =
      ground (arith, delete_returns w s, delete_now w s, stored-delete w s s.id, eq_refl s.id)

  -- If `exchangeSession` issues tokens, then the session is stored, its first factor is done, its
  -- second factor is done or spared by the policy or the trusted device, it was not exchanged
  -- before, the tokens are those of the session's user as the tables have it, and the session is
  -- gone afterwards.
  pub exchange_session_sound :
      (w w' : World p) (id : String) (out : SignInOutput)
      → exchange_session id w ≡ (ok out, w')
      → (s : AuthSession) × (u : UserEntity) × (stored w id ≡ some s)
        × IsComplete s
        × IsUserOf w s u
        × (out.access_token ≡ p.sign u.id u.email w.now)
        × (stored w' s.id ≡ none)
  unfolding exchange_session
  exchange_session_sound w w' id out h =
      let (s, w₁, got, h₁) = >>=-eq-ok (get_session id) _ w h in
      let (there, same₁) = get_session-eq-ok w w₁ id s got in
      let (u, w₂, passed, h₂) = >>=-eq-ok (completed_user s) _ w₁ h₁ in
      let (complete, (user_id, named, found), same₂) = completed_user-eq-ok w₁ w₂ s u passed in
      let (signed, gone) = issue_after_delete w₂ w' s u out h₂ in
      (
        s,
        u,
        there,
        complete,
        subst (λ v. IsUserOf v s u) same₁ (IsUserOf-row w₁ s u user_id named found),
        signed ∙ ap (λ v. p.sign u.id u.email v.now) (same₂ ∙ same₁),
        gone,
      )

  -- Deleting a session and issuing tokens, on a world where the session's user is `u`.
  pub issue_after_delete_lem :
      (w : World p) (s : AuthSession) (u : UserEntity)
      → (out : SignInOutput) × (((Sessions.delete s >> issue_tokens u s.tenant_id s.remember_me)
            w).0
          ≡ ok out)
        × (out.access_token ≡ p.sign u.id u.email w.now)
        × (stored ((Sessions.delete s >> issue_tokens u s.tenant_id s.remember_me) w).1 s.id ≡ none)
  unfolding issue_tokens
  issue_after_delete_lem w s u = (
    issued (Sessions.delete s w).1 u s.tenant_id s.remember_me,
    ground (arith, delete_returns w s),
    ground (arith, delete_now w s),
    ground (arith, delete_returns w s, stored-delete w s s.id, eq_refl s.id),
  )

  -- A stored session under its own id that has passed both factors (or is spared the second), is
  -- not exchanged and belongs to a stored user gets that user's tokens from `exchangeSession`,
  -- and is gone afterwards.
  pub exchange_session_complete :
      (w : World p) (id : String) (s : AuthSession) (u : UserEntity)
      → stored w id ≡ some s
      → s.id ≡ id
      → IsComplete s
      → IsUserOf w s u
      → (out : SignInOutput) × ((exchange_session id w).0 ≡ ok out)
        × (out.access_token ≡ p.sign u.id u.email w.now)
        × (stored (exchange_session id w).1 id ≡ none)
  unfolding exchange_session
  exchange_session_complete w id s u there same complete (named, found) =
      rw (get_session_lem w id s there same, exchange_session)
        (rw (completed_user_lem w s u u.id complete named found)
          (rw (← same) (issue_after_delete_lem w s u)))

  -- A stored session under its own id whose first factor is done, whose policy is not DISABLED,
  -- and which has neither a second factor nor a trusted device, is answered by "MFA required"
  -- from both `exchangeSession` and `exchange`, without a change: also under the policy OPTIONAL,
  -- and whether or not the user has set MFA up.
  pub second_factor_missing :
      (w : World p) (id : String) (s : AuthSession)
      → stored w id ≡ some s
      → s.id ≡ id
      → s.primary_auth_verified ≡ true
      → s.mfa_policy ≢ disabled
      → s.mfa_verified ≡ false
      → s.device_trusted ≡ false
      → (exchange_session id w ≡ (err mfa_required, w)) × (exchange id w ≡ (err mfa_required, w))
  unfolding exchange_session exchange completed_user
  second_factor_missing w id s there same first policy unverified untrusted =
      let lacks : lacks_second_factor s ≡ true = ground arith in
      (
        rw (get_session_lem w id s there same, exchange_session) (ground arith),
        rw (get_session_lem w id s there same, exchange) (ground arith),
      )
