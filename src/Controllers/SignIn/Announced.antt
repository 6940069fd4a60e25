-- ===== src/Controllers/SignIn/Announced.antt =====
-- The next step that a client is told, against what `exchangeSession` asks for.
use authora.Prelude.{◌≡◌, ◌≢◌, String, true, false, some, arith, inl, inr, ◌⊎◌}
use authora.Model.{AuthSession, UserEntity, optional, disabled}
use authora.Exec.{ok, err, mfa_required}
use authora.World.{Platform, World}
use authora.Sessions.{stored}
use authora.SignIn.{SignInOutput}
use authora.SignIn.Completion.{exchange_session}
use authora.SignIn.Gate.{
  IsComplete, IsUserOf, exchange_session_sound, exchange_session_complete, second_factor_missing,
}
use authora.Controllers.SignIn.{mfa_setup, complete, resolve_next_step}

-- the sessions that are told "complete" though they have no second factor
pub record IsSpared (s : AuthSession) : Type 0 where
  pub first_factor : s.primary_auth_verified ≡ true
  pub policy : s.mfa_policy ≡ optional
  pub no_setup : s.mfa_setup ≡ false
  pub unverified : s.mfa_verified ≡ false
  pub untrusted : s.device_trusted ≡ false

complete_cases :
    (s : AuthSession)
    → resolve_next_step s ≡ complete
    → s.exchanged ≡ false
    → IsComplete s ⊎ IsSpared s
unfolding resolve_next_step
complete_cases s told unused = ground arith

complete_next :
    (s : AuthSession)
    → IsComplete s
    → (resolve_next_step s ≡ complete) ⊎ ((resolve_next_step s ≡ mfa_setup) × (s.mfa_setup ≡ false))
unfolding resolve_next_step
complete_next s c = ground arith

optional-ne-disabled : optional ≢ disabled
optional-ne-disabled h = cc

module _ {p : Platform} where
  -- A stored, unused session of a known user whose next step is told as "complete" gets tokens
  -- from `exchangeSession`, the access token being signed for that user, unless its policy is
  -- OPTIONAL and it has no second factor: then `exchangeSession` answers "MFA required" and
  -- changes nothing.
  pub announced_complete :
      (w : World p) (id : String) (s : AuthSession) (u : UserEntity)
      → stored w id ≡ some s
      → s.id ≡ id
      → s.exchanged ≡ false
      → IsUserOf w s u
      → resolve_next_step s ≡ complete
      → ((out : SignInOutput) × ((exchange_session id w).0 ≡ ok out)
          × (out.access_token ≡ p.sign u.id u.email w.now))
        ⊎ (IsSpared s × (exchange_session id w ≡ (err mfa_required, w)))
  announced_complete w id s u there same unused owner told = elim (complete_cases s told unused) [
    | inl c ↦
        let (out, answer, signed, gone) = exchange_session_complete w id s u there same c owner in
        inl (out, answer, signed)
    | inr spared ↦
        let refused =
          second_factor_missing w id s there same spared.first_factor
            (rw spared.policy optional-ne-disabled) spared.unverified spared.untrusted in
        inr (spared, refused.0)
  ]

  pub issued_was_announced :
      (w w' : World p) (id : String) (out : SignInOutput)
      → exchange_session id w ≡ (ok out, w')
      → (s : AuthSession) × (stored w id ≡ some s)
        × ((resolve_next_step s ≡ complete)
            ⊎ ((resolve_next_step s ≡ mfa_setup) × (s.mfa_setup ≡ false)))
  issued_was_announced w w' id out h =
      let (s, u, there, c, owner, signed, gone) = exchange_session_sound w w' id out h in
      (s, there, complete_next s c)
