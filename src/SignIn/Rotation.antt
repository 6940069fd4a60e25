-- ===== src/SignIn/Rotation.antt =====
-- sign-in.service.ts: what `refreshToken` asks for, and what it leaves of the refresh tokens.
use authora.Prelude.{
  ◌≤◌, ◌≡◌, refl, sym, ◌∙◌, ap, subst, String, true, false, not, some, List, arith, Bool-cases, inl,
  inr, ◌==◌, eq_iff, All, Member,
}
use authora.Model.{RefreshTokenEntity, UserEntity}
use authora.Exec.{
  pure, ok, err, Result, ◌>>=◌, >>=-eq-ok, throw_if-bind, or_throw-bind, tenant_not_found,
  or_throw-eq-ok, missing_refresh_token, invalid_access_token, invalid_refresh_token,
  access_token_mismatch,
}
use authora.World.{Platform, World, read_without_tenant}
use authora.RefreshTokens.{first_match, verify, rotate, handle_token_reuse}
use authora.RefreshTokens.Active.{
  IsRotated, rotate_lem, first_match-some, handle_token_reuse_lem, reuse_answer, token_rows,
  is_alive_in,
}
use authora.SignIn.{SignInOutput}
use authora.SignIn.Refresh.{given, user_of_token, refresh_token}
use authora.SignIn.Gate.{user_row, user_row_id}

given-some : (a b : String) → given (some a) ≡ some b → b ≡ a
given-some a b h = ground arith

module _ {p : Platform} where
  -- the refresh tokens of a user, the newest first
  abbrev pub tokens_of : World p → UserEntity → List RefreshTokenEntity
  tokens_of w u =
      p.refresh_tokens.find (λ t. t.user_id == u.id) (λ t. t.created_at) w.refresh_tokens

  -- The row of the user whom an access token names.
  abbrev pub IsNamedBy : World p → String → UserEntity → Type 0
  IsNamedBy w access u = (given (p.decode access) ≡ some u.id) × (user_row w u.id ≡ some u)

  user_of_token-eq-ok :
      (w w' : World p) (access : String) (u : UserEntity)
      → user_of_token access w ≡ (ok u, w')
      → IsNamedBy w access u × (w' ≡ w)
  unfolding user_of_token
  user_of_token-eq-ok w w' access u h =
      let (id, named, h₁) = or_throw-bind invalid_access_token (given (p.decode access)) _ w h in
      let (found, same) = or_throw-eq-ok invalid_refresh_token (user_row w id) w h₁ in
      (
        subst (λ i. (given (p.decode access) ≡ some i) × (user_row w i ≡ some u))
            (sym (user_row_id w id u found)) (named, found),
        same,
      )

  verify-eq-ok :
      (w w' : World p) (t : RefreshTokenEntity) (clear : String) (u : UserEntity)
      → verify t clear u w ≡ (ok true, w')
      → (t.revoked ≡ false) × (w.now ≤ t.expired_at) × (w' ≡ w)
  unfolding verify
  verify-eq-ok w w' t clear u h = elim (Bool-cases t.revoked) [
    | inl e ↦ let (thrown, dead) = handle_token_reuse_lem w t u in absurd (ground arith)
    | inr e ↦ (e, ground arith, ground arith)
  ]

  -- The refresh token that a refresh was given: it is a user's, has the clear text and goes with
  -- the access token, and it is neither revoked nor past its end.
  pub record IsAccepted (w : World p) (u : UserEntity) (access clear : String)
      (t : RefreshTokenEntity) : Type 0 where
    pub stored : Member t (token_rows w)
    pub owner : t.user_id ≡ u.id
    pub matches : p.argon2_verify t.token_hash clear ≡ true
    pub paired : t.jwt ≡ access
    pub unrevoked : t.revoked ≡ false
    pub unexpired : w.now ≤ t.expired_at

  accepted :
      (w : World p) (u : UserEntity) (access clear : String) (t : RefreshTokenEntity)
      → first_match p clear (tokens_of w u) ≡ some t
      → not (t.jwt == access) ≡ false
      → t.revoked ≡ false
      → w.now ≤ t.expired_at
      → IsAccepted w u access clear t
  accepted w u access clear t found paired unrevoked unexpired =
      let (matches, listed) = first_match-some p clear (tokens_of w u) t found in
      let (owner, there) =
        (p.refresh_tokens.find_lem (λ r. r.user_id == u.id) (λ r. r.created_at) w.refresh_tokens
            t).0
          listed in
      record {
        stored = there;
        owner = (eq_iff t.user_id u.id).0 owner;
        matches = matches;
        paired = (eq_iff t.jwt access).0 (ground arith);
        unrevoked = unrevoked;
        unexpired = unexpired;
      }

  -- the tail of `refreshToken`, once the token is verified
  rest_of_refresh :
      (w w' : World p) (t : RefreshTokenEntity) (u : UserEntity) (out : SignInOutput)
      → t.user_id ≡ u.id
      → (rotate t u (p.sign u.id u.email w.now) >>= λ new_refresh. read_without_tenant >>= λ config.
            pure (record {
              access_token = p.sign u.id u.email w.now;
              expires_in = config.jwt_access_token_expiration_sec;
              refresh_token = new_refresh;
            }))
          w
        ≡ (ok out, w')
      → (out.access_token ≡ p.sign u.id u.email w.now) × IsRotated t w w'
  rest_of_refresh w w' t u out owner h =
      let (returned, rotated) = rotate_lem w t u (p.sign u.id u.email w.now) owner in
      let (_, v, stepped, h₁) = >>=-eq-ok (rotate t u (p.sign u.id u.email w.now)) _ w h in
      let (config, read, rest) = or_throw-bind tenant_not_found p.no_tenant _ v h₁ in
      let moved : (rotate t u (p.sign u.id u.email w.now) w).1 ≡ w' =
        ap (λ (x : Result String × World p). x.1) stepped
        ∙ ap (λ (x : Result SignInOutput × World p). x.1) rest in
      (ground arith, subst (λ x. IsRotated t w x) moved rotated)

  -- A refresh succeeds only for the user whom the access token names, with a stored token of
  -- theirs that has the clear text, goes with the access token, is not revoked and not past its
  -- end. It signs a new access token, and leaves that token revoked and a new active token with
  -- the same user, family and end.
  pub refresh_token_sound :
      (w w' : World p) (access clear : String) (out : SignInOutput)
      → refresh_token (some access) (some clear) w ≡ (ok out, w')
      → (u : UserEntity) × (t : RefreshTokenEntity) × IsNamedBy w access u
        × IsAccepted w u access clear t
        × (out.access_token ≡ p.sign u.id u.email w.now)
        × IsRotated t w w'
  unfolding refresh_token
  refresh_token_sound w w' access clear out h =
      let (access', g₁, h₁) = or_throw-bind missing_refresh_token (given (some access)) _ w h in
      let (clear', g₂, h₂) = or_throw-bind missing_refresh_token (given (some clear)) _ w h₁ in
      let (u, w₁, named, h₃) = >>=-eq-ok (user_of_token access') _ w h₂ in
      let (who, same₁) = user_of_token-eq-ok w w₁ access' u named in
      let (t, found, h₄) =
        or_throw-bind invalid_refresh_token (first_match p clear' (tokens_of w₁ u)) _ w₁ h₃ in
      let (paired, h₅) = throw_if-bind (not (t.jwt == access')) access_token_mismatch _ w₁ h₄ in
      let (valid, w₂, verified, h₆) = >>=-eq-ok (verify t clear' u) _ w₁ h₅ in
      let (is_valid, h₇) = throw_if-bind (not valid) invalid_refresh_token _ w₂ h₆ in
      let verified' : verify t clear' u w₁ ≡ (ok true, w₂) =
        subst (λ b. verify t clear' u w₁ ≡ (ok b, w₂)) (ground arith) verified in
      let (unrevoked, unexpired, same₂) = verify-eq-ok w₁ w₂ t clear' u verified' in
      let fits = accepted w₁ u access' clear' t found paired unrevoked unexpired in
      let (signed, rotated) = rest_of_refresh w₂ w' t u out fits.owner h₇ in
      let same = same₂ ∙ same₁ in
      let opened = given-some access access' g₁ in
      (
        u,
        t,
        subst (λ a. IsNamedBy w a u) opened who,
        subst (λ a. IsAccepted w u a clear t) opened
            (subst (λ c. IsAccepted w u access' c t) (given-some clear clear' g₂)
              (subst (λ v. IsAccepted v u access' clear' t) same₁ fits)),
        signed ∙ ap (λ (v : World p). p.sign u.id u.email v.now) same,
        subst (λ v. IsRotated t v w') same rotated,
      )

  user_of_token_lem :
      (w : World p) (access : String) (u : UserEntity)
      → IsNamedBy w access u
      → user_of_token access w ≡ (ok u, w)
  unfolding user_of_token
  user_of_token_lem w access u (named, row) = rw (named, user_of_token) (rw row refl)

  verify-revoked :
      (w : World p) (t : RefreshTokenEntity) (clear : String) (u : UserEntity)
      → t.revoked ≡ true
      → verify t clear u w ≡ (err (reuse_answer p.no_tenant), (handle_token_reuse t u w).1)
  unfolding verify
  verify-revoked w t clear u h = let (thrown, dead) = handle_token_reuse_lem w t u in ground arith

  -- Suppose that the access and the refresh token are not empty, that the access token names a
  -- stored user, and that the user's newest refresh token with the given clear text goes with the
  -- access token and is revoked. Then the refresh is answered by "token reuse detected" if the
  -- settings of the tenant '' can be read, and by "tenant not found" if not; either way,
  -- afterwards no token of that token's family is active.
  pub refresh_token_reused :
      (w : World p) (access clear : String) (u : UserEntity) (t : RefreshTokenEntity)
      → given (some access) ≡ some access
      → given (some clear) ≡ some clear
      → IsNamedBy w access u
      → first_match p clear (tokens_of w u) ≡ some t
      → t.jwt ≡ access
      → t.revoked ≡ true
      → let r = refresh_token (some access) (some clear) w in
        (r.0 ≡ err (reuse_answer p.no_tenant))
        × All (λ s. is_alive_in t.family s ≡ false) (token_rows r.1)
  unfolding refresh_token
  refresh_token_reused w access clear u t a c who found paired revoked =
      let (thrown, dead) = handle_token_reuse_lem w t u in
      let fits : (t.jwt == access) ≡ true = (eq_iff t.jwt access).1 paired in
      rw (a, refresh_token)
        (rw (c, refresh_token)
          (rw (user_of_token_lem w access u who, refresh_token)
            (rw (found, refresh_token)
              (rw (fits, refresh_token) (rw (verify-revoked w t clear u revoked) (refl, dead))))))
