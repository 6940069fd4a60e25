-- ===== src/SignIn/Password.antt =====
-- sign-in.service.ts: the first factor by password.
use authora.Prelude.{
  ◌≡◌, refl, sym, ◌∙◌, ap, subst, String, Bool, true, false, not, some, List, Option-cases, inl,
  inr, arith, ◌==◌, eq_refl, leb, ◌&&◌,
}
use authora.Model.{AuthSession, UserEntity, PasswordEntity, MfaPolicy, AuthFailureReason}
use authora.Exec.{
  pure, ok, Result, Exception, ◌>>=◌, ◌>>◌, >>=-eq-ok, or_throw-bind, of_result-bind,
  invalid_credentials,
}
use authora.Config.{TenantConfig}
use authora.World.{Platform, World, Action}
use authora.Users
use authora.Attempts
use authora.Devices
use authora.Passwords.{PasswordVerifyResult, check}
use authora.Passwords
use authora.Sessions.{stored}
use authora.Sessions.Storage.{write, stored-write, update-eq-ok}
use authora.Sessions
use authora.SignIn.{
  PasswordInput, get_session, refuse_if, resolve_mfa_status, password_accepted, judge_password,
  primary_auth_password,
}
use authora.SignIn.Gate.{get_session-eq-ok}

-- What a first factor leaves in the session: the user, and nothing of a second factor that was
-- passed before is taken back.
pub record IsVerifiedFor (policy : MfaPolicy) (u : UserEntity) (s s' : AuthSession) : Type 0 where
  pub named : s'.user_id ≡ some u.id
  pub verified : s'.primary_auth_verified ≡ true
  pub policy_read : s'.mfa_policy ≡ policy
  pub same_id : s'.id ≡ s.id
  pub mfa_kept : s'.mfa_verified ≡ s.mfa_verified

module _ {p : Platform} where
  pub refuse_if-bind :
      {B : Type 0} (b : Bool) (u : UserEntity) (ip user_agent : String) (r : AuthFailureReason)
      (e : Exception) (k : Unit {0} → Action p B) (w : World p) {out : B} {w' : World p}
      → (refuse_if b u ip user_agent r e >>= k) w ≡ (ok out, w')
      → (b ≡ false) × (k tt w ≡ (ok out, w'))
  unfolding refuse_if
  refuse_if-bind true u ip user_agent r e k w h = absurd (cc)
  refuse_if-bind false u ip user_agent r e k w h = (refl, h)

  judge_password-eq-ok :
      (w w' : World p) (s s' : AuthSession) (u : UserEntity) (dto : PasswordInput)
      (v : PasswordVerifyResult)
      → judge_password s u dto v w ≡ (ok s', w')
      → (v ≡ PasswordVerifyResult.valid) × (password_accepted s u dto w ≡ (ok s', w'))
  unfolding Passwords.revoke Attempts.create Users.record_failed_password_attempt Users.lock
  judge_password-eq-ok w w' s s' u dto PasswordVerifyResult.expired h = absurd (cc)
  judge_password-eq-ok w w' s s' u dto PasswordVerifyResult.invalid h = absurd (ground arith)
  judge_password-eq-ok w w' s s' u dto PasswordVerifyResult.valid h = (refl, h)

  pub finish_update :
      (w w' : World p) (r s' : AuthSession)
      → (Sessions.update r >> pure r) w ≡ (ok s', w')
      → (s' ≡ r) × (stored w' r.id ≡ some r)
  finish_update w w' r s' h =
      let (_, v, updated, rest) = >>=-eq-ok (Sessions.update r) (λ _. pure r) w h in
      let (alive, same) = update-eq-ok w v r updated in
      let written = stored-write w r r.id alive ∙ ground (arith, eq_refl r.id) in
      let moved : write w r ≡ w' = sym same ∙ ap (λ (x : Result AuthSession × World p). x.1) rest in
      let returned : s' ≡ r = cc rest in
      (returned, subst (λ v. stored v r.id ≡ some r) moved written)

  password_accepted-eq-ok :
      (w w' : World p) (s s' : AuthSession) (u : UserEntity) (dto : PasswordInput)
      → password_accepted s u dto w ≡ (ok s', w')
      → IsVerifiedFor (p.tenant s.tenant_id).mfa_policy u s s' × (stored w' s.id ≡ some s')
  unfolding password_accepted resolve_mfa_status
  password_accepted-eq-ok w w' s s' u dto h =
      let (found, w₁, registered, h₁) =
        >>=-eq-ok (Devices.register_or_update u dto.device_fingerprint dto.ip dto.user_agent) _ _
          h in
      let (same, there) = finish_update w₁ w' _ s' h₁ in
      (
        record {
          named = ap (λ (t : AuthSession). t.user_id) same;
          verified = ap (λ (t : AuthSession). t.primary_auth_verified) same;
          policy_read = ap (λ (t : AuthSession). t.mfa_policy) same;
          same_id = ap (λ (t : AuthSession). t.id) same;
          mfa_kept = ap (λ (t : AuthSession). t.mfa_verified) same;
        },
        there ∙ ap some (sym same),
      )

  -- the passwords of a user, as they are loaded with it
  abbrev pub loaded_passwords : World p → UserEntity → List PasswordEntity
  loaded_passwords w u = p.passwords.find (λ r. r.user_id == u.id) (λ r. 0) w.passwords

  -- whether the user's failed attempts are still cooling down
  unfoldable pub is_cooling : TenantConfig → World p → UserEntity → Bool
  unfolding Users.is_cooldown_expired
  is_cooling config w u =
      leb config.primary_auth_max_attempts u.primary_failed_attempt_count
      && not (
          Users.is_cooldown_expired w.now u.primary_last_failed_attempt_at
            config.primary_auth_cooldown_sec)

  -- what the check of the cooldown reads before it answers
  cooling-bind :
      {B : Type 0} (u : UserEntity) (k : Bool → Action p B) (w : World p) {r : B} {w' : World p}
      → (Users.is_password_temporarily_locked u >>= k) w ≡ (ok r, w')
      → (config : TenantConfig) × (p.no_tenant ≡ some config)
        × (k (is_cooling config w u) w ≡ (ok r, w'))
  unfolding Users.is_password_temporarily_locked is_cooling
  cooling-bind u k w h = elim (Option-cases p.no_tenant) [
    | inl e ↦ let h' = rw e at h in absurd (cc)
    | inr (config, e) ↦ let h' = rw e at h in (config, e, h')
  ]

  -- `primaryAuthPassword` returns a session only for a user with the given email who is neither
  -- locked nor cooling down, whose current password is the given one and not expired, by the
  -- settings that are read for the tenant ''; the session was stored under the id, is now
  -- verified for that user with the tenant's policy, and is stored so.
  pub primary_auth_password_sound :
      (w w' : World p) (id : String) (dto : PasswordInput) (s' : AuthSession)
      → primary_auth_password id dto w ≡ (ok s', w')
      → (s : AuthSession) × (u : UserEntity) × (config : TenantConfig) × (stored w id ≡ some s)
        × (p.no_tenant ≡ some config)
        × (p.users.find_one (λ r. r.email == p.to_lower_case dto.email) w.users ≡ some u)
        × (u.is_locked ≡ false)
        × (is_cooling config w u ≡ false)
        × (check p w.now u (loaded_passwords w u) dto.password ≡ ok PasswordVerifyResult.valid)
        × IsVerifiedFor (p.tenant s.tenant_id).mfa_policy u s s'
        × (stored w' s.id ≡ some s')
  unfolding primary_auth_password is_cooling
  primary_auth_password_sound w w' id dto s' h =
      let (s, w₁, got, h₁) = >>=-eq-ok (get_session id) _ w h in
      let (there, same₁) = get_session-eq-ok w w₁ id s got in
      let (u, found, h₂) =
        or_throw-bind invalid_credentials
          (p.users.find_one (λ r. r.email == p.to_lower_case dto.email) w₁.users) _ w₁ h₁ in
      let (unlocked, h₃) = refuse_if-bind u.is_locked u _ _ _ _ _ w₁ h₂ in
      let (config, read, h₃') = cooling-bind u _ w₁ h₃ in
      let (cool, h₄) = refuse_if-bind (is_cooling config w₁ u) u _ _ _ _ _ w₁ h₃' in
      let (v, judged, h₄') =
        of_result-bind (check p w₁.now u (loaded_passwords w₁ u) dto.password) _ w₁ h₄ in
      let (valid, h₅) = judge_password-eq-ok w₁ w' s s' u dto v h₄' in
      let P = λ (v : World p).
        (p.users.find_one (λ r. r.email == p.to_lower_case dto.email) v.users ≡ some u)
        × (is_cooling config v u ≡ false)
        × (check p v.now u (loaded_passwords v u) dto.password ≡ ok PasswordVerifyResult.valid) in
      let (found', cool', valid') = subst P same₁ (found, cool, judged ∙ ap ok valid) in
      let (verified, kept) = password_accepted-eq-ok w₁ w' s s' u dto h₅ in
      (s, u, config, there, read, found', unlocked, cool', valid', verified, kept)
