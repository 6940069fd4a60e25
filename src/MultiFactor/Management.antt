-- ===== src/MultiFactor/Management.antt =====
-- multi-factor-auth.service.ts and multi-factor-auth-entity.service.ts: who may turn a second
-- factor on and off.
use authora.Prelude.{
  ℕ, zero, suc, ◌≡◌, sym, ◌∙◌, ap, subst, String, Bool, true, false, not, ◌&&◌, some, List, [], ◌∷◌,
  arith, if◌then◌else◌, Bool-cases, Option-cases, inl, inr, ◌==◌, length, All, select, All-map_each,
}
use authora.Model.{UserEntity, MultiFactorAuthEntity, PasswordEntity, OneTimeTokenType, exchange}
use authora.Redis.Keys.{Key, ott_key}
use authora.Exec.{
  invalid_token, ok, err, Result, modify, pure, ◌>>=◌, ◌>>◌, >>=-eq-ok, or_throw-bind,
  throw_if-bind, of_result-bind, invalid_credentials, mfa_code_invalid,
}
use authora.Account.Known.{IsKnown}
use authora.World.{Platform, World}
use authora.Passwords.{check}
use authora.Mfa.{
  generate, hash_all, enable, verified_with, verify_for_user, disable_for_user, recovery_code,
  recovery_code_count,
}
use authora.Account.{is_invalid, revoke_everything}
use authora.Account.Recovery.{revoke_everything_lem, revoke_everything-keeps}
use authora.Mfa
use authora.Repository.Rows.{none_removed}
use authora.RefreshTokens.{active_for}
use authora.RefreshTokens.Active.{token_rows}
use authora.Tokens.{consume, text_at}
use authora.Tokens.Revocation.{IsSpent, IsSpent-from}
use authora.MultiFactor.{confirmed_user, verify, disable}

-- a second factor with this id that is not verified
abbrev pub is_pending : String → MultiFactorAuthEntity → Bool
is_pending id m = m.id == id && not m.is_verified

module _ {p : Platform} where
  abbrev pub passwords : World p → UserEntity → List PasswordEntity
  passwords w u = p.passwords.find (λ r. r.user_id == u.id) (λ r. 0) w.passwords

  -- The user with the email, by a password that is not judged invalid.
  abbrev pub IsConfirmed : World p → String → String → UserEntity → Type 0
  IsConfirmed w email password u =
      (p.users.find_one (λ r. r.email == p.to_lower_case email) w.users ≡ some u)
      × IsKnown (check p w.now u (passwords w u) password)

  confirmed_user-eq-ok :
      (w w' : World p) (email password : String) (u : UserEntity)
      → confirmed_user (p.to_lower_case email) password w ≡ (ok u, w')
      → IsConfirmed w email password u × (w' ≡ w)
  unfolding confirmed_user
  confirmed_user-eq-ok w w' email password u h =
      let (v, found, h₁) =
        or_throw-bind invalid_credentials
          (p.users.find_one (λ r. r.email == p.to_lower_case email) w.users) _ w h in
      let (verdict, judged, h₁') =
        of_result-bind (check p w.now v (passwords w v) password) _ w h₁ in
      let (known, h₂) = throw_if-bind (is_invalid verdict) invalid_credentials _ w h₁' in
      let same : v ≡ u = cc h₂ in
      (
        subst (IsConfirmed w email password) same (found, (verdict, judged, known)),
        ap (λ (r : Result UserEntity × World p). r.1) (sym h₂),
      )

  generate-eq-ok :
      (n : ℕ) (code_of : ℕ → String) (w w' : World p) (codes : List String)
      → generate n code_of w ≡ (ok codes, w')
      → (length codes ≡ n) × (w'.mfas ≡ w.mfas)
  unfolding generate
  generate-eq-ok zero code_of w w' codes h = (ground arith, ground arith)
  generate-eq-ok (suc n) code_of w w' codes h =
      let (rest, w₁, made, h₁) =
        >>=-eq-ok (generate n code_of) (λ rest. pure (code_of w.draws ∷ rest))
          (record w { draws = suc w.draws }) h in
      let (counted, kept) =
        generate-eq-ok n code_of (record w { draws = suc w.draws }) w₁ rest made in
      (ground (arith, counted), ground (arith, kept))

  hash_all-keeps :
      (cs hs : List String) (w w' : World p) → hash_all cs w ≡ (ok hs, w') → w'.mfas ≡ w.mfas
  unfolding hash_all
  hash_all-keeps [] hs w w' h = ground arith
  hash_all-keeps (c ∷ cs) hs w w' h =
      let (rest, w₁, made, h₁) = >>=-eq-ok (hash_all cs) _ _ h in
      let kept = hash_all-keeps cs rest _ w₁ made in
      sym (ap (λ (r : Result (List String) × World p). r.1.mfas) h₁) ∙ kept

  enable-eq-ok :
      (w w' : World p) (m : MultiFactorAuthEntity) (codes : List String)
      → enable m w ≡ (ok codes, w')
      → (length codes ≡ 10) × All (λ r. is_pending m.id r ≡ false) (p.mfas.rows w'.mfas)
  unfolding enable
  enable-eq-ok w w' m codes h =
      let code_of : ℕ → String = λ i. recovery_code (p.random_bytes i) in
      let (made, w₁, drawn, h₁) =
        >>=-eq-ok (generate 10 code_of)
          (λ cs. hash_all cs >>= λ hs.
            modify (λ (v : World p). record v {
              mfas = p.mfas.update (λ r. r.id == m.id) (verified_with hs) v.mfas;
            })
            >> pure cs)
          w h in
      let (hashes, w₂, hashed, h₂) =
        >>=-eq-ok (hash_all made)
          (λ hs.
            modify (λ (v : World p). record v {
              mfas = p.mfas.update (λ r. r.id == m.id) (verified_with hs) v.mfas;
            })
            >> pure made)
          w₁ h₁ in
      let (counted, kept) = generate-eq-ok 10 code_of w w₁ made drawn in
      let same : made ≡ codes = cc h₂ in
      (
        ap length (sym same) ∙ counted,
        subst (λ t. All (λ r. is_pending m.id r ≡ false) (p.mfas.rows t))
            (ap (λ (r : Result (List String) × World p). r.1.mfas) h₂) (patched w₂.mfas hashes),
      )
    where
      patched :
          (t : p.mfas.Table) (hashes : List String)
          → All
              (λ r. is_pending m.id r ≡ false)
              (p.mfas.rows (p.mfas.update (λ r. r.id == m.id) (verified_with hashes) t))
      patched t hashes =
          rw (p.mfas.rows-update (λ r. r.id == m.id) (verified_with hashes) t)
            (All-map_each (λ r. is_pending m.id r ≡ false) _ _ (on hashes))
        where
          on :
              (hs : List String) (r : MultiFactorAuthEntity)
              → is_pending m.id (if r.id == m.id then verified_with hs r else r) ≡ false
          on hs r = elim (Bool-cases (r.id == m.id)) [
            | inl e ↦ rw e (ground arith)
            | inr e ↦ rw e (ground arith)
          ]

  verify_for_user-eq-ok :
      (w w' : World p) (u : UserEntity) (code : String) (codes : List String)
      → verify_for_user u code w ≡ (ok codes, w')
      → (m : MultiFactorAuthEntity) × (p.mfas.find_one (λ r. r.user_id == u.id) w.mfas ≡ some m)
        × (p.totp_verify m.secret code w.now ≡ true)
        × (length codes ≡ 10)
        × All (λ r. is_pending m.id r ≡ false) (p.mfas.rows w'.mfas)
  unfolding verify_for_user
  verify_for_user-eq-ok w w' u code codes h =
      elim (Option-cases (p.mfas.find_one (λ r. r.user_id == u.id) w.mfas)) [
        | inl e ↦ absurd (ground arith)
        | inr (m, e) ↦
            let h' = rw e at h in
            let (right, rest) =
              throw_if-bind (not (p.totp_verify m.secret code w.now)) mfa_code_invalid
                (λ _. enable m) w h' in
            let (counted, on) = enable-eq-ok w w' m codes rest in (m, e, ground arith, counted, on)
      ]

  -- A second factor is turned on only for the user with the email, by a password that is not
  -- judged invalid and a code that the second factor takes now. Ten recovery codes come back, and
  -- no row with its id is left unverified.
  pub verify_sound :
      (w w' : World p) (email password code : String) (codes : List String)
      → verify email password code w ≡ (ok codes, w')
      → (u : UserEntity) × (m : MultiFactorAuthEntity) × IsConfirmed w email password u
        × (p.mfas.find_one (λ r. r.user_id == u.id) w.mfas ≡ some m)
        × (p.totp_verify m.secret code w.now ≡ true)
        × (length codes ≡ 10)
        × All (λ r. is_pending m.id r ≡ false) (p.mfas.rows w'.mfas)
  unfolding verify
  verify_sound w w' email password code codes h =
      let (u, w₁, confirmed, h₁) =
        >>=-eq-ok (confirmed_user (p.to_lower_case email) password) _ w h in
      let (who, same₁) = confirmed_user-eq-ok w w₁ email password u confirmed in
      let (m, found, right, counted, on) = verify_for_user-eq-ok w₁ w' u code codes h₁ in
      let P = λ (v : World p).
        (p.mfas.find_one (λ r. r.user_id == u.id) v.mfas ≡ some m)
        × (p.totp_verify m.secret code v.now ≡ true) in
      let (found', right') = subst P same₁ (found, right) in
      (u, m, who, found', right', counted, on)

  disable_for_user-eq-ok :
      (w w' : World p) (u : UserEntity) (code : String) (x : Unit {0})
      → disable_for_user u code w ≡ (ok x, w')
      → (m : MultiFactorAuthEntity) × (p.mfas.find_one
            (λ r. r.user_id == u.id && r.is_verified)
            w.mfas
          ≡ some m)
        × (p.totp_verify m.secret code w.now ≡ true)
        × All (λ r. (r.id == m.id) ≡ false) (p.mfas.rows w'.mfas)
  unfolding disable_for_user
  disable_for_user-eq-ok w w' u code x h =
      elim (Option-cases (p.mfas.find_one (λ r. r.user_id == u.id && r.is_verified) w.mfas)) [
        | inl e ↦ absurd (ground arith)
        | inr (m, e) ↦
            let h' = rw e at h in
            let (right, rest) =
              throw_if-bind (not (p.totp_verify m.secret code w.now)) mfa_code_invalid
                (λ _. Mfa.remove_mfa m) w h' in
            (
              m,
              e,
              ground arith,
              subst (λ t. All (λ r. (r.id == m.id) ≡ false) (p.mfas.rows t))
                  (ap (λ (r : Result Unit × World p). r.1.mfas) rest)
                  (none_removed p.mfas (λ r. r.id == m.id) w.mfas),
            )
      ]

  disable_keeps :
      (w w' : World p) (u : UserEntity) (code : String) (k : Key) (x : Unit {0})
      → disable_for_user u code w ≡ (ok x, w')
      → text_at w' k ≡ text_at w k
  unfolding disable_for_user
  disable_keeps w w' u code k x h =
      elim (Option-cases (p.mfas.find_one (λ r. r.user_id == u.id && r.is_verified) w.mfas)) [
        | inl e ↦ absurd (ground arith)
        | inr (m, e) ↦
            let h' = rw e at h in
            let (right, rest) =
              throw_if-bind (not (p.totp_verify m.secret code w.now)) mfa_code_invalid
                (λ _. Mfa.remove_mfa m) w h' in
            sym (ap (λ (r : Result Unit × World p). text_at r.1 k) rest)
      ]

  -- A second factor is turned off only for the user with the email, by a password that is not
  -- judged invalid and a code that the user's verified second factor takes now. It is deleted, no
  -- refresh token of the user is active afterwards, every token of the user is refused by
  -- `consume`, and the exchange token that the user had before by `consumeExchangeToken`.
  pub disable_sound :
      (w w' : World p) (email password code clear exchange_code : String) (type : OneTimeTokenType)
      → disable email password code w ≡ (ok tt, w')
      → (u : UserEntity) × (m : MultiFactorAuthEntity) × IsConfirmed w email password u
        × (p.mfas.find_one (λ r. r.user_id == u.id && r.is_verified) w.mfas ≡ some m)
        × (p.totp_verify m.secret code w.now ≡ true)
        × All (λ r. (r.id == m.id) ≡ false) (p.mfas.rows w'.mfas)
        × (select (active_for u.id) (token_rows w') ≡ [])
        × (consume u.id clear type w' ≡ (err invalid_token, w'))
        × IsSpent w w' u.id exchange_code
  unfolding disable
  disable_sound w w' email password code clear exchange_code type h =
      let (u, w₁, confirmed, h₁) =
        >>=-eq-ok (confirmed_user (p.to_lower_case email) password) _ w h in
      let (who, same₁) = confirmed_user-eq-ok w w₁ email password u confirmed in
      let (x, w₂, off, h₂) = >>=-eq-ok (disable_for_user u code) (λ _. revoke_everything u) w₁ h₁ in
      let (m, found, right, gone) = disable_for_user-eq-ok w₁ w₂ u code x off in
      let k = ott_key u.id exchange in
      let same_code =
        ap (λ v. text_at v k) (sym same₁) ∙ sym (disable_keeps w₁ w₂ u code k x off) in
      let (passwords_kept, inactive, refused, spent) =
        revoke_everything_lem w₂ u clear exchange_code type in
      let moved : (revoke_everything u w₂).1 ≡ w' = ap (λ (r : Result Unit × World p). r.1) h₂ in
      let P = λ (v : World p).
        (p.mfas.find_one (λ r. r.user_id == u.id && r.is_verified) v.mfas ≡ some m)
        × (p.totp_verify m.secret code v.now ≡ true) in
      let (found', right') = subst P same₁ (found, right) in
      let Q = λ (v : World p).
        (select (active_for u.id) (token_rows v) ≡ [])
        × (consume u.id clear type v ≡ (err invalid_token, v))
        × IsSpent w₂ v u.id exchange_code in
      let (inactive', refused', spent') = subst Q moved (inactive, refused, spent) in
      (
        u,
        m,
        who,
        found',
        right',
        subst (λ t. All (λ r. (r.id == m.id) ≡ false) (p.mfas.rows t))
            (sym (revoke_everything-keeps w₂ u) ∙ ap (λ (v : World p). v.mfas) moved) gone,
        inactive',
        refused',
        IsSpent-from w w₂ w' u.id exchange_code same_code spent',
      )
