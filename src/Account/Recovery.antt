-- ===== src/Account/Recovery.antt =====
-- account.service.ts: the change and the reset of a password.
use authora.Prelude.{
  ◌≡◌, refl, ◌∙◌, sym, subst, ap, String, Bool, true, false, ◌&&◌, some, List, [], ◌∷◌, arith, ◌==◌,
  eq_refl, select, select_none,
}
use authora.Model.{UserEntity, PasswordEntity, OneTimeTokenType, exchange, RefreshTokenEntity}
use authora.Redis.Keys.{Key, ott_key, token_reuse_key}
use authora.Exec.{
  ok, err, Result, ◌>>=◌, ◌>>◌, >>=-eq-ok, of_result-bind, tenant_not_found, or_throw-bind,
  throw_if-bind, when, invalid_credentials, password_already_used, invalid_token,
}
use authora.Config.{TenantConfig}
use authora.World.{Platform, World, read_without_tenant}
use authora.Passwords.{check, already_used, change_user_password, reset_user_password}
use authora.Passwords.Current.{password_rows, is_current_for, fresh, only_current}
use authora.RefreshTokens.{active_for}
use authora.RefreshTokens.Active.{token_rows, none_left}
use authora.RefreshTokens
use authora.Tokens.{text_at, consume, del_keys}
use authora.Tokens.Single.{consume-eq-ok_iff, consume-eq-ok, used}
use authora.Tokens.Revocation.{
  revoke_all_for_user_lem, IsSpent, revoke_all_for_user-IsSpent, IsSpent-from,
}
use authora.Tokens
use authora.Sessions.{as_text}
use authora.Account.Known.{IsKnown}
use authora.Account.{
  locked_by_attempts, is_invalid, revoke_everything, unlock_after_reset, change_password,
  reset_password,
}

module _ {p : Platform} where
  abbrev pub loaded : World p → UserEntity → List PasswordEntity
  loaded w u = p.passwords.find (λ r. r.user_id == u.id) (λ r. 0) w.passwords

  -- What remains of a user's credentials: the new password alone, and no refresh token.
  pub record IsRenewed (w : World p) (u : UserEntity) (new_password : String) (w' : World p)
      : Type 0 where
    pub one_password : select (is_current_for u.id) (password_rows w') ≡ fresh w u new_password ∷ []
    pub no_session : select (active_for u.id) (token_rows w') ≡ []

  del_keys_keeps :
      (ks : List Key) (w : World p)
      → ((del_keys ks w).1.passwords ≡ w.passwords)
        × ((del_keys ks w).1.refresh_tokens ≡ w.refresh_tokens)
        × ((del_keys ks w).1.mfas ≡ w.mfas)
  unfolding del_keys
  del_keys_keeps [] w = (refl, refl, refl)
  del_keys_keeps (k ∷ ks) w = del_keys_keeps ks _

  revoke_all_keeps :
      (w : World p) (user_id : String)
      → ((Tokens.revoke_all_for_user user_id w).1.passwords ≡ w.passwords)
        × ((Tokens.revoke_all_for_user user_id w).1.refresh_tokens ≡ w.refresh_tokens)
        × ((Tokens.revoke_all_for_user user_id w).1.mfas ≡ w.mfas)
  unfolding Tokens.revoke_all_for_user
  revoke_all_keeps w user_id =
      del_keys_keeps
        (Tokens.collect user_id (text_at w (ott_key user_id exchange)) Tokens.all_types) w

  pub revoke_everything_lem :
      (w : World p) (u : UserEntity) (clear code : String) (type : OneTimeTokenType)
      → let r = revoke_everything u w in
        (r.1.passwords ≡ w.passwords)
        × (select (active_for u.id) (token_rows r.1) ≡ [])
        × (consume u.id clear type r.1 ≡ (err invalid_token, r.1))
        × IsSpent w r.1 u.id code
  unfolding revoke_everything
  revoke_everything_lem w u clear code type =
      let v = record w {
        refresh_tokens =
            p.refresh_tokens.update (active_for u.id) RefreshTokens.revoke w.refresh_tokens;
      } in
      let (passwords_kept, tokens_kept, mfas_kept) = revoke_all_keeps v u.id in
      let unrevoked : (t : RefreshTokenEntity) → active_for u.id (RefreshTokens.revoke t) ≡ false =
        λ t. ground arith in
      let none_active = select_none (active_for u.id) _ (none_left w (active_for u.id) unrevoked) in
      (
        passwords_kept,
        subst (λ t'. select (active_for u.id) (p.refresh_tokens.rows t') ≡ []) (sym tokens_kept)
            none_active,
        (revoke_all_for_user_lem v u.id clear type).1,
        revoke_all_for_user-IsSpent v u.id code,
      )

  -- The second factors are not touched.
  pub revoke_everything-keeps :
      (w : World p) (u : UserEntity) → (revoke_everything u w).1.mfas ≡ w.mfas
  unfolding revoke_everything
  revoke_everything-keeps w u =
      let v = record w {
        refresh_tokens =
            p.refresh_tokens.update (active_for u.id) RefreshTokens.revoke w.refresh_tokens;
      } in
      let (passwords_kept, tokens_kept, mfas_kept) = revoke_all_keeps v u.id in mfas_kept

  -- once the new password is stored
  renewed :
      (w v w' : World p) (u : UserEntity) (new_password clear code : String)
      (type : OneTimeTokenType)
      → select (is_current_for u.id) (password_rows v) ≡ fresh w u new_password ∷ []
      → revoke_everything u v ≡ (ok tt, w')
      → IsRenewed w u new_password w'
        × (consume u.id clear type w' ≡ (err invalid_token, w'))
        × IsSpent v w' u.id code
  renewed w v w' u new_password clear code type only h =
      let moved : (revoke_everything u v).1 ≡ w' = ap (λ (r : Result Unit × World p). r.1) h in
      let (kept, inactive, refused, spent) = revoke_everything_lem v u clear code type in
      subst
        (λ x.
          IsRenewed w u new_password x
          × (consume u.id clear type x ≡ (err invalid_token, x))
          × IsSpent v x u.id code)
        moved
        (
          record {
            one_password =
                subst
                  (λ t.
                    select (is_current_for u.id) (p.passwords.rows t) ≡ fresh w u new_password ∷ [])
                  (sym kept) only;
            no_session = inactive;
          },
          refused,
          spent,
        )

  -- What happens before the tokens are revoked leaves the exchange token alone.
  change_keeps :
      (w : World p) (u : UserEntity) (new_password : String) (k : Key)
      → text_at (change_user_password u new_password w).1 k ≡ text_at w k
  unfolding change_user_password
  change_keeps w u new_password k = refl

  reset_keeps :
      (w : World p) (u : UserEntity) (new_password : String) (k : Key)
      → text_at (reset_user_password u new_password w).1 k ≡ text_at w k
  unfolding reset_user_password
  reset_keeps w u new_password k = refl

  used_keeps :
      (w : World p) (user_id : String)
      → text_at (used w user_id OneTimeTokenType.forgot_password) (ott_key user_id exchange)
        ≡ text_at w (ott_key user_id exchange)
  used_keeps w user_id = ap as_text (
      p.redis.get-del w.redis w.now (ott_key user_id OneTimeTokenType.forgot_password)
        (ott_key user_id exchange)
      ∙ rw (eq_refl user_id) refl)

  unlocked_keeps_code :
      (v v' : World p) (u : UserEntity) (user_id : String) (b : Bool) (x : Unit {0})
      → when b (unlock_after_reset u) v ≡ (ok x, v')
      → text_at v' (ott_key user_id exchange) ≡ text_at v (ott_key user_id exchange)
  unfolding unlock_after_reset
  unlocked_keeps_code v v' u user_id true x h =
      sym (ap (λ (r : Result Unit × World p). text_at r.1 (ott_key user_id exchange)) h)
      ∙ ap as_text (p.redis.get-del v.redis v.now (token_reuse_key u.id) (ott_key user_id exchange))
  unlocked_keeps_code v v' u user_id false x h =
      sym (ap (λ (r : Result Unit × World p). text_at r.1 (ott_key user_id exchange)) h)

  -- A password is changed only with a current password that is not judged invalid (an expired one
  -- passes), and to none of the passwords that the user has or had. Afterwards the new password
  -- is the user's only one that is not revoked, no refresh token of the user is active, every
  -- token of the user is refused by `consume`, and the exchange token that the user had before by
  -- `consumeExchangeToken`.
  pub change_password_sound :
      (w w' : World p) (email current_password new_password clear code : String)
      (type : OneTimeTokenType)
      → change_password email current_password new_password w ≡ (ok tt, w')
      → (u : UserEntity) × (p.users.find_one (λ r. r.email == p.to_lower_case email) w.users
          ≡ some u)
        × IsKnown (check p w.now u (loaded w u) current_password)
        × (already_used p (loaded w u) new_password ≡ false)
        × IsRenewed w u new_password w'
        × (consume u.id clear type w' ≡ (err invalid_token, w'))
        × IsSpent w w' u.id code
  unfolding change_password
  change_password_sound w w' email current_password new_password clear code type h =
      let (u, found, h₁) =
        or_throw-bind invalid_credentials
          (p.users.find_one (λ r. r.email == p.to_lower_case email) w.users) _ w h in
      let (verdict, judged, h₁') =
        of_result-bind (check p w.now u (loaded w u) current_password) _ w h₁ in
      let (known, h₂) = throw_if-bind (is_invalid verdict) invalid_credentials _ w h₁' in
      let (unused, h₃) =
        throw_if-bind (already_used p (loaded w u) new_password) password_already_used _ w h₂ in
      let (row, v, changed, h₄) =
        >>=-eq-ok (change_user_password u new_password) (λ _. revoke_everything u) w h₃ in
      let moved : (change_user_password u new_password w).1 ≡ v =
        ap (λ (r : Result PasswordEntity × World p). r.1) changed in
      let only =
        subst (λ x. select (is_current_for u.id) (password_rows x) ≡ fresh w u new_password ∷ [])
          moved (only_current w u new_password).0 in
      let (done, refused, spent) = renewed w v w' u new_password clear code type only h₄ in
      let same_code =
        sym (change_keeps w u new_password (ott_key u.id exchange))
        ∙ ap (λ x. text_at x (ott_key u.id exchange)) moved in
      (
        u,
        found,
        (verdict, judged, known),
        unused,
        done,
        refused,
        IsSpent-from w v w' u.id code same_code spent,
      )

  unlock_keeps : (w : World p) (u : UserEntity) → (unlock_after_reset u w).1.passwords ≡ w.passwords
  unfolding unlock_after_reset
  unlock_keeps w u = refl

  unlocked_keeps :
      (v v' : World p) (u : UserEntity) (b : Bool) (x : Unit {0})
      → when b (unlock_after_reset u) v ≡ (ok x, v')
      → v'.passwords ≡ v.passwords
  unlocked_keeps v v' u true x h =
      sym (ap (λ (r : Result Unit × World p). r.1.passwords) h) ∙ unlock_keeps v u
  unlocked_keeps v v' u false x h = sym (ap (λ (r : Result Unit × World p). r.1.passwords) h)

  -- A password is reset only with the stored reset token of the user with the email, and to none
  -- of the passwords that the user has or had. Afterwards the new password is the user's only one
  -- that is not revoked, no refresh token of the user is active, every token of the user is
  -- refused by `consume`, and the exchange token that the user had before by
  -- `consumeExchangeToken`.
  pub reset_password_sound :
      (w w' : World p) (email token new_password clear code : String) (type : OneTimeTokenType)
      → reset_password email token new_password w ≡ (ok tt, w')
      → (u : UserEntity) × (p.users.find_one (λ r. r.email == p.to_lower_case email) w.users
          ≡ some u)
        × (text_at w (ott_key u.id OneTimeTokenType.forgot_password) ≡ some (p.sha256 token))
        × (already_used p (loaded w u) new_password ≡ false)
        × IsRenewed w u new_password w'
        × (consume u.id clear type w' ≡ (err invalid_token, w'))
        × IsSpent w w' u.id code
  unfolding reset_password
  reset_password_sound w w' email token new_password clear code type h =
      let kind = OneTimeTokenType.forgot_password in
      let (u, found, h₁) =
        or_throw-bind invalid_credentials
          (p.users.find_one (λ r. r.email == p.to_lower_case email) w.users) _ w h in
      let b = λ (config : TenantConfig).
        config.unlock_on_password_reset && u.is_locked && locked_by_attempts u.lock_reason in
      let (x, w₁, taken, h₂) = >>=-eq-ok (consume u.id token kind) _ w h₁ in
      let accepted =
        (consume-eq-ok_iff w u.id token kind).0 (ap (λ (r : Result Unit × World p). r.0) taken) in
      let (unused, h₃) =
        throw_if-bind (already_used p (loaded w u) new_password) password_already_used _ w₁ h₂ in
      let (row, v, reset, h₄) =
        >>=-eq-ok (reset_user_password u new_password)
          (λ _. read_without_tenant >>= λ config.
            when (b config) (unlock_after_reset u) >> revoke_everything u)
          w₁ h₃ in
      let (config, read, h₄') = or_throw-bind tenant_not_found p.no_tenant _ v h₄ in
      let (y, v', unlocking, h₅) =
        >>=-eq-ok (when (b config) (unlock_after_reset u)) (λ _. revoke_everything u) v h₄' in
      let only =
        subst
          (λ t. select (is_current_for u.id) (p.passwords.rows t) ≡ fresh w₁ u new_password ∷ [])
          (ap (λ (r : Result PasswordEntity × World p). r.1.passwords) reset
            ∙ sym (unlocked_keeps v v' u (b config) y unlocking))
          (only_current w₁ u new_password).1 in
      let (done, refused, spent) = renewed w₁ v' w' u new_password clear code type only h₅ in
      let k = ott_key u.id exchange in
      let same_code =
        sym (used_keeps w u.id)
        ∙ ap (λ x. text_at x k) (sym (consume-eq-ok w w₁ u.id token kind taken))
        ∙ sym (reset_keeps w₁ u new_password k)
        ∙ ap (λ (r : Result PasswordEntity × World p). text_at r.1 k) reset
        ∙ sym (unlocked_keeps_code v v' u u.id (b config) y unlocking) in
      let at_used =
        subst (λ a. IsRenewed a u new_password w') (consume-eq-ok w w₁ u.id token kind taken)
          done in
      (
        u,
        found,
        accepted,
        unused,
        record { one_password = at_used.one_password; no_session = at_used.no_session },
        refused,
        IsSpent-from w v' w' u.id code same_code spent,
      )
