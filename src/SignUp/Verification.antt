-- ===== src/SignUp/Verification.antt =====
-- sign-up.service.ts: who may register, and what a verified email makes.
use authora.Prelude.{
  ◌≤◌, ◌≡◌, ◌≢◌, ◌↔◌, refl, ◌∙◌, sym, subst, ap, String, Bool, true, false, not, ◌||◌, none, some,
  ◌∷◌, arith, ltb, Bool-cases, inl, inr, ◌==◌, All, ◌&&◌, is_some,
}
use authora.Model.{RegistrationEntity, UserEntity, PasswordEntity, user}
use authora.Exec.{
  pure, ok, err, Result, ◌>>=◌, ◌>>◌, or_throw-bind, throw_if-bind, registration_not_found,
  invalid_token, email_already_used,
}
use authora.World.{Platform, World, Action}
use authora.Repository.Rows.{none_removed}
use authora.Registrations
use authora.Users
use authora.Passwords
use authora.SignUp.{SignUpInput, is_used, sign_up, check_email, verify_email}

clash : (b : Bool) → b ≡ false → b ≡ true → ⊥
clash b e h = ground arith

-- the answers of `checkEmail`
abbrev pub taken_answer : Result String
taken_answer = ok "If the email can be used, you will be able to sign-up."

abbrev free_answer : Result String
free_answer = ok "You can continue the registration process if this email is valid."

abbrev is_taken_answer : Result String → Bool
is_taken_answer (ok s) = s == "If the email can be used, you will be able to sign-up."
is_taken_answer (err e) = false

distinct : free_answer ≢ taken_answer
distinct h = let apart : false ≡ true = ap is_taken_answer h in ground arith

module _ {p : Platform} where
  -- a registration or a user of the tenant has the email
  abbrev pub is_taken : World p → String → String → Bool
  is_taken w email tenant_id =
      is_some (
        p.registrations.find_one (λ r. r.email == email && r.tenant_id == tenant_id)
          w.registrations)
      || is_some (p.users.find_one (λ u. u.email == email && u.tenant_id == tenant_id) w.users)

  -- `signUp` answers "email already used", without a change, exactly if a registration or a user
  -- of the tenant has the lower-case email.
  pub sign_up-eq-err_iff :
      (w : World p) (dto : SignUpInput) (tenant_id : String)
      → (sign_up dto tenant_id w ≡ (err email_already_used, w))
        ↔ (is_taken w (p.to_lower_case dto.email) tenant_id ≡ true)
  unfolding sign_up is_used Registrations.create
  sign_up-eq-err_iff w dto tenant_id =
      elim (Bool-cases (is_taken w (p.to_lower_case dto.email) tenant_id)) [
        | inl e ↦ ((λ h. e), (λ h. ground arith))
        | inr e ↦ ((λ h. absurd (ground arith)), (λ h. absurd (cc)))
      ]

  refused :
      (w : World p) (email password tenant_id : String)
      → (sign_up (record { email = email; password = password }) tenant_id w
          ≡ (err email_already_used, w))
        ↔ (is_taken w (p.to_lower_case email) tenant_id ≡ true)
  refused w email password tenant_id = sign_up-eq-err_iff w _ tenant_id

  -- `checkEmail` gives its first message exactly if `signUp` with that email, whatever the
  -- password, would answer "email already used" without a change.
  pub check_email_agrees :
      (w : World p) (email password tenant_id : String)
      → ((check_email email tenant_id w).0 ≡ taken_answer) ↔ (
          sign_up (record { email = email; password = password }) tenant_id w
          ≡ (err email_already_used, w))
  unfolding check_email is_used
  check_email_agrees w email password tenant_id =
      elim (Bool-cases (is_taken w (p.to_lower_case email) tenant_id)) [
        | inl e ↦ ((λ h. (refused w email password tenant_id).1 e), (λ h. rw e refl))
        | inr e ↦ (
          (λ h. absurd (distinct (rw e at h))),
          (λ h. absurd (clash _ e ((refused w email password tenant_id).0 h))),
        )
      ]

  -- What a verified registration becomes: a user with its email and tenant, not locked, whose only
  -- password row that was added has the registration's hash; the registration is gone.
  pub record IsVerified (w : World p) (r : RegistrationEntity) (u : UserEntity) (w' : World p)
      : Type 0 where
    pub tenant : u.tenant_id ≡ r.tenant_id
    pub unlocked : u.is_locked ≡ false
    pub added : p.users.rows w'.users ≡ u ∷ p.users.rows w.users
    pub password : PasswordEntity
    pub owner : password.user_id ≡ u.id
    pub same_hash : password.password_hash ≡ r.password_hash
    pub stored : p.passwords.rows w'.passwords ≡ password ∷ p.passwords.rows w.passwords
    pub used_up : All (λ s. (s.id == r.id) ≡ false) (p.registrations.rows w'.registrations)

  -- the user that `verifyEmail` makes
  abbrev pub made_user : World p → String → String → UserEntity
  made_user w email tenant_id = record {
    id = p.uuid w.draws;
    tenant_id = tenant_id;
    email = email;
    role = user;
    is_locked = false;
    locked_at = none;
    lock_reason = none;
    primary_failed_attempt_count = 0;
    primary_last_failed_attempt_at = none;
    mfa_failed_attempt_count = 0;
    mfa_last_failed_attempt_at = none;
    created_at = w.now;
  }

  -- `verifyEmail` once the token is accepted
  abbrev pub finish : String → RegistrationEntity → Action p UserEntity
  finish email r = do
    v ← Users.create email r.tenant_id none
    Passwords.create_from_hash v r.password_hash
    Registrations.delete r
    pure v

  finish_lem :
      (w : World p) (email : String) (r : RegistrationEntity)
      → ((finish email r w).0 ≡ ok (made_user w email r.tenant_id))
        × IsVerified w r (made_user w email r.tenant_id) (finish email r w).1
  unfolding Users.create Passwords.create_from_hash Registrations.delete
  finish_lem w email r = (
    refl,
    record {
      tenant = refl;
      unlocked = refl;
      added = p.users.rows-insert (made_user w email r.tenant_id) w.users;
      password = _;
      owner = refl;
      same_hash = refl;
      stored = p.passwords.rows-insert _ w.passwords;
      used_up = none_removed p.registrations (λ s. s.id == r.id) w.registrations;
    },
  )

  finish-eq-ok :
      (w w' : World p) (email : String) (r : RegistrationEntity) (u : UserEntity)
      → finish email r w ≡ (ok u, w')
      → (u.email ≡ email) × IsVerified w r u w'
  finish-eq-ok w w' email r u h =
      let (returned, verified) = finish_lem w email r in
      let moved : (finish email r w).1 ≡ w' = ap (λ (x : Result UserEntity × World p). x.1) h in
      let same : ok (made_user w email r.tenant_id) ≡ ok u =
        sym returned ∙ ap (λ (x : Result UserEntity × World p). x.0) h in
      let named : made_user w email r.tenant_id ≡ u = cc same in
      subst (λ (v : UserEntity). (v.email ≡ email) × IsVerified w r v w') named
        (refl, subst (λ x. IsVerified w r (made_user w email r.tenant_id) x) moved verified)

  -- An email is verified only with a registration for it, before the end of that registration's
  -- token and with that token. The new user has the lower-case email and the registration's
  -- tenant, is not locked, is added to the users with a password row that has the registration's
  -- hash, and no registration with that id is left.
  pub verify_email_sound :
      (w w' : World p) (email token : String) (u : UserEntity)
      → verify_email email token w ≡ (ok u, w')
      → (r : RegistrationEntity) × (p.registrations.find_one
            (λ s. s.email == p.to_lower_case email)
            w.registrations
          ≡ some r)
        × (w.now ≤ r.email_verification_token_expires_at)
        × (p.argon2_verify r.email_verification_token_hash token ≡ true)
        × (u.email ≡ p.to_lower_case email)
        × IsVerified w r u w'
  unfolding verify_email
  verify_email_sound w w' email token u h =
      let (r, found, h₁) =
        or_throw-bind registration_not_found
          (p.registrations.find_one (λ s. s.email == p.to_lower_case email) w.registrations) _ w
          h in
      let (alive, h₂) =
        throw_if-bind (ltb r.email_verification_token_expires_at w.now) invalid_token _ w h₁ in
      let (fits, h₃) =
        throw_if-bind (not (p.argon2_verify r.email_verification_token_hash token)) invalid_token _
          w h₂ in
      let (named, verified) = finish-eq-ok w w' (p.to_lower_case email) r u h₃ in
      (r, found, ground arith, ground arith, named, verified)
