-- ===== src/SignIn/SecondFactor.antt =====
-- sign-in.service.ts: the second factor, a TOTP code (`mfaAuthTotpValidate`).
use authora.Prelude.{
  ◌≡◌, refl, sym, ◌∙◌, ap, subst, String, Bool, true, false, not, ◌&&◌, Option, none, some, arith,
  leb, Option-cases, inl, inr, ◌==◌,
}
use authora.Model.{AuthSession, UserEntity, MultiFactorAuthEntity}
use authora.Exec.{
  ok, ◌>>=◌, >>=-eq-ok, throw_if-bind, or_throw-bind, invalid_credentials, primary_auth_required,
}
use authora.Config.{TenantConfig}
use authora.World.{Platform, World, Action}
use authora.Users
use authora.Attempts
use authora.Devices
use authora.Mfa.{TotpValidateResult, validate_totp_for_user}
use authora.Sessions.{stored}
use authora.SignIn.{get_session}
use authora.SignIn.Totp.{TotpInput, trust_device, totp_accepted, judge_totp, mfa_auth_totp_validate}
use authora.SignIn.Gate.{get_session-eq-ok, user_row, IsUserOf, IsUserOf-row}
use authora.SignIn.Password.{refuse_if-bind, finish_update}

-- What a second factor leaves in the session: the second factor, and at most trust in the device,
-- are new.
pub record IsRaised (s s' : AuthSession) : Type 0 where
  pub second_factor : s'.mfa_verified ≡ true
  pub same_user : s'.user_id ≡ s.user_id
  pub same_first : s'.primary_auth_verified ≡ s.primary_auth_verified
  pub same_exchanged : s'.exchanged ≡ s.exchanged
  pub same_id : s'.id ≡ s.id

IsRaised-verified : (s : AuthSession) → IsRaised s (record s { mfa_verified = true })
IsRaised-verified s = record {
  second_factor = refl;
  same_user = refl;
  same_first = refl;
  same_exchanged = refl;
  same_id = refl;
}

IsRaised-trusting :
    (s : AuthSession) → IsRaised s (record s { mfa_verified = true; device_trusted = true })
IsRaised-trusting s = record {
  second_factor = refl;
  same_user = refl;
  same_first = refl;
  same_exchanged = refl;
  same_id = refl;
}

module _ {p : Platform} where
  abbrev pub verified_mfa : World p → UserEntity → Option MultiFactorAuthEntity
  verified_mfa w u = p.mfas.find_one (λ m. m.user_id == u.id && m.is_verified) w.mfas

  -- whether the user's failed codes are still cooling down
  unfoldable pub is_mfa_cooling : TenantConfig → World p → UserEntity → Bool
  unfolding Users.is_cooldown_expired
  is_mfa_cooling config w u =
      leb config.mfa_auth_max_attempts u.mfa_failed_attempt_count
      && not (
          Users.is_cooldown_expired w.now u.mfa_last_failed_attempt_at config.mfa_auth_cooldown_sec)

  -- The user's verified second factor takes the code now.
  abbrev pub HasValidCode : World p → UserEntity → String → Type 0
  HasValidCode w u code =
      (m : MultiFactorAuthEntity) × (verified_mfa w u ≡ some m)
      × (p.totp_verify m.secret code w.now ≡ true)

  validate-eq-valid :
      (w w' : World p) (u : UserEntity) (code : String) (v : TotpValidateResult)
      → validate_totp_for_user u code w ≡ (ok v, w')
      → v ≡ TotpValidateResult.valid
      → HasValidCode w u code
  unfolding validate_totp_for_user
  validate-eq-valid w w' u code v h e = elim (Option-cases (verified_mfa w u)) [
    | inl missing ↦ absurd (ground arith)
    | inr (m, found) ↦ (m, found, ground arith)
  ]

  judge_totp-eq-ok :
      (w w' : World p) (s s' : AuthSession) (u : UserEntity) (dto : TotpInput)
      (v : TotpValidateResult)
      → judge_totp s u dto v w ≡ (ok s', w')
      → (v ≡ TotpValidateResult.valid) × (totp_accepted s u dto w ≡ (ok s', w'))
  unfolding Users.record_failed_mfa_attempt Attempts.create
  judge_totp-eq-ok w w' s s' u dto TotpValidateResult.not_found h = absurd (cc)
  judge_totp-eq-ok w w' s s' u dto TotpValidateResult.invalid h = absurd (ground arith)
  judge_totp-eq-ok w w' s s' u dto TotpValidateResult.valid h = (refl, h)

  trust_device-IsRaised :
      (w w' : World p) (s r : AuthSession) (u : UserEntity) (b : Option Bool) (f : Option String)
      → trust_device (record s { mfa_verified = true }) u b f w ≡ (ok r, w')
      → IsRaised s r
  unfolding Devices.find_by_fingerprint Devices.trust
  trust_device-IsRaised w w' s r u (some true) (some f) h =
      elim (Option-cases
        (Devices.first_match p f (p.devices.find (λ d. d.user_id == u.id) (λ d. 0) w.devices))) [
          | inl e ↦
              let same : record s { mfa_verified = true } ≡ r = ground arith in
              subst (IsRaised s) same (IsRaised-verified s)
          | inr (d, e) ↦
              let same : record s { mfa_verified = true; device_trusted = true } ≡ r =
                ground arith in
              subst (IsRaised s) same (IsRaised-trusting s)
        ]
  trust_device-IsRaised w w' s r u (some true) none h =
      subst (IsRaised s) (cc h) (IsRaised-verified s)
  trust_device-IsRaised w w' s r u (some false) f h =
      subst (IsRaised s) (cc h) (IsRaised-verified s)
  trust_device-IsRaised w w' s r u none f h = subst (IsRaised s) (cc h) (IsRaised-verified s)

  totp_accepted-eq-ok :
      (w w' : World p) (s s' : AuthSession) (u : UserEntity) (dto : TotpInput)
      → totp_accepted s u dto w ≡ (ok s', w')
      → IsRaised s s' × (stored w' s.id ≡ some s')
  unfolding totp_accepted
  totp_accepted-eq-ok w w' s s' u dto h =
      let (r, w₁, trusted, h₁) =
        >>=-eq-ok
          (trust_device (record s { mfa_verified = true }) u dto.trust_this_device
            s.device_fingerprint)
          _ _ h in
      let (same, there) = finish_update w₁ w' r s' h₁ in
      let up = trust_device-IsRaised _ w₁ s r u _ _ trusted in
      (
        subst (IsRaised s) (sym same) up,
        subst (λ i. stored w' i ≡ some s') up.same_id (there ∙ ap some (sym same)),
      )

  -- what the check of the cooldown reads before it answers
  mfa_cooling-bind :
      {B : Type 0} (u : UserEntity) (k : Bool → Action p B) (w : World p) {r : B} {w' : World p}
      → (Users.is_mfa_temporarily_locked u >>= k) w ≡ (ok r, w')
      → (config : TenantConfig) × (p.no_tenant ≡ some config)
        × (k (is_mfa_cooling config w u) w ≡ (ok r, w'))
  unfolding Users.is_mfa_temporarily_locked is_mfa_cooling
  mfa_cooling-bind u k w h = elim (Option-cases p.no_tenant) [
    | inl e ↦ let h' = rw e at h in absurd (cc)
    | inr (config, e) ↦ let h' = rw e at h in (config, e, h')
  ]

  -- `mfaAuthTotpValidate` returns a session only if its first factor is done, its user is neither
  -- locked nor cooling down and has a verified second factor that takes the code now, by the
  -- settings that are read for the tenant ''; the session then has the second factor, with the
  -- same user, id, first factor and exchange mark, and is stored so.
  pub mfa_auth_totp_validate_sound :
      (w w' : World p) (id : String) (dto : TotpInput) (s' : AuthSession)
      → mfa_auth_totp_validate id dto w ≡ (ok s', w')
      → (s : AuthSession) × (u : UserEntity) × (config : TenantConfig) × (stored w id ≡ some s)
        × (p.no_tenant ≡ some config)
        × (s.primary_auth_verified ≡ true)
        × IsUserOf w s u
        × (u.is_locked ≡ false)
        × (is_mfa_cooling config w u ≡ false)
        × HasValidCode w u dto.code
        × IsRaised s s'
        × (stored w' s.id ≡ some s')
  unfolding mfa_auth_totp_validate is_mfa_cooling
  mfa_auth_totp_validate_sound w w' id dto s' h =
      let (s, w₁, got, h₁) = >>=-eq-ok (get_session id) _ w h in
      let (there, same₁) = get_session-eq-ok w w₁ id s got in
      let (user_id, named, h₂) = or_throw-bind invalid_credentials s.user_id _ w₁ h₁ in
      let (first, h₃) = throw_if-bind (not s.primary_auth_verified) primary_auth_required _ w₁ h₂ in
      let (u, found, h₄) = or_throw-bind invalid_credentials (user_row w₁ user_id) _ w₁ h₃ in
      let (unlocked, h₅) = refuse_if-bind u.is_locked u _ _ _ _ _ w₁ h₄ in
      let (config, read, h₅') = mfa_cooling-bind u _ w₁ h₅ in
      let (cool, h₆) = refuse_if-bind (is_mfa_cooling config w₁ u) u _ _ _ _ _ w₁ h₅' in
      let (v, w₂, verdict, h₇) = >>=-eq-ok (validate_totp_for_user u dto.code) _ w₁ h₆ in
      let (valid, h₈) = judge_totp-eq-ok w₂ w' s s' u dto v h₇ in
      let code = validate-eq-valid w₁ w₂ u dto.code v verdict valid in
      let (up, kept) = totp_accepted-eq-ok w₂ w' s s' u dto h₈ in
      let P = λ (x : World p).
        IsUserOf x s u × (is_mfa_cooling config x u ≡ false) × HasValidCode x u dto.code in
      let (who, cool', code') =
        subst P same₁ (IsUserOf-row w₁ s u user_id named found, cool, code) in
      (s, u, config, there, read, ground arith, who, unlocked, cool', code', up, kept)
