-- ===== src/SignIn/MagicLink.antt =====
-- sign-in.service.ts: the first factor by a magic link (`primaryAuthMagicLinkValidate`).
use authora.Prelude.{◌≡◌, sym, ◌∙◌, ap, subst, String, Option, some}
use authora.Model.{AuthSession, UserEntity, magic_link}
use authora.Redis.Keys.{ott_key}
use authora.Exec.{ok, Result, >>=-eq-ok, or_throw-bind, invalid_credentials}
use authora.World.{Platform, World}
use authora.Devices
use authora.Sessions.{stored}
use authora.Tokens.{text_at, consume}
use authora.Tokens.Single.{consume-eq-ok_iff}
use authora.SignIn.{get_session, resolve_mfa_status, primary_auth_magic_link_validate}
use authora.SignIn.Gate.{get_session-eq-ok, user_row, IsUserOf, IsUserOf-row}
use authora.SignIn.Password.{IsVerifiedFor, finish_update}

module _ {p : Platform} where
  -- `primaryAuthMagicLinkValidate` returns a session only if it was stored under the id and names
  -- a stored user for whom the given token is the stored magic-link token; the session is then
  -- verified for that user with the tenant's policy, and is stored so. A second factor that was
  -- passed before stays.
  pub primary_auth_magic_link_validate_sound :
      (w w' : World p) (id token ip user_agent : String) (fingerprint : Option String)
      (s' : AuthSession)
      → primary_auth_magic_link_validate id token ip user_agent fingerprint w ≡ (ok s', w')
      → (s : AuthSession) × (u : UserEntity) × (stored w id ≡ some s)
        × IsUserOf w s u
        × (text_at w (ott_key u.id magic_link) ≡ some (p.sha256 token))
        × IsVerifiedFor (p.tenant s.tenant_id).mfa_policy u s s'
        × (stored w' s.id ≡ some s')
  unfolding primary_auth_magic_link_validate resolve_mfa_status
  primary_auth_magic_link_validate_sound w w' id token ip user_agent fingerprint s' h =
      let (s, w₁, got, h₁) = >>=-eq-ok (get_session id) _ w h in
      let (there, same₁) = get_session-eq-ok w w₁ id s got in
      let (user_id, named, h₂) = or_throw-bind invalid_credentials s.user_id _ w₁ h₁ in
      let (u, found, h₃) = or_throw-bind invalid_credentials (user_row w₁ user_id) _ w₁ h₂ in
      let (x, w₂, taken, h₄) = >>=-eq-ok (consume u.id token magic_link) _ w₁ h₃ in
      let (device, w₃, registered, h₅) =
        >>=-eq-ok (Devices.register_or_update u fingerprint ip user_agent) _ w₂ h₄ in
      let (same, kept) = finish_update w₃ w' _ s' h₅ in
      let accepted =
        (consume-eq-ok_iff w₁ u.id token magic_link).0
          (ap (λ (r : Result Unit × World p). r.0) taken) in
      let who = IsUserOf-row w₁ s u user_id named found in
      let P = λ (v : World p).
        IsUserOf v s u × (text_at v (ott_key u.id magic_link) ≡ some (p.sha256 token)) in
      let (who', accepted') = subst P same₁ (who, accepted) in
      (
        s,
        u,
        there,
        who',
        accepted',
        record {
          named = ap (λ (t : AuthSession). t.user_id) same ∙ who.0;
          verified = ap (λ (t : AuthSession). t.primary_auth_verified) same;
          policy_read = ap (λ (t : AuthSession). t.mfa_policy) same;
          same_id = ap (λ (t : AuthSession). t.id) same;
          mfa_kept = ap (λ (t : AuthSession). t.mfa_verified) same;
        },
        kept ∙ ap some (sym same),
      )
