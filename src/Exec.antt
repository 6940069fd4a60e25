-- ===== src/Exec.antt =====
-- The service methods of service/**: an `async` method reads and writes the stores and may throw.
-- What was written before a throw stays written, so the state comes back beside an exception too.
-- `Exception` has one constructor for each class, or each class with its message, that the
-- services throw.
use authora.Prelude.{◌≡◌, refl, Option, none, some, Bool, true, false, if◌then◌else◌, arith}

pub data Exception : Type 0 where
  invalid_credentials : Exception
  too_many_attempts : Exception
  password_expired : Exception
  session_not_found : Exception
  primary_auth_required : Exception
  mfa_required : Exception
  missing_refresh_token : Exception
  invalid_access_token : Exception
  invalid_refresh_token : Exception
  access_token_mismatch : Exception
  token_reuse_detected : Exception
  invalid_auth_session : Exception
  invalid_token : Exception
  mfa_already_enabled : Exception
  mfa_not_found : Exception
  mfa_code_invalid : Exception
  password_already_used : Exception
  device_not_found : Exception
  account_deletion_not_found : Exception
  registration_not_found : Exception
  email_already_used : Exception
  type_error : Exception
  no_active_authora_config : Exception
  tenant_not_found : Exception
  no_active_tenant_config : Exception
  default_tenant_not_found : Exception
  missing_authorization : Exception
  expired_access_token : Exception
  user_not_found : Exception
  account_is_locked : Exception
  admin_required : Exception
  first_admin_required : Exception
  expired_super_admin_token : Exception
  no_tenant_configured : Exception
  missing_api_key : Exception
  invalid_api_key : Exception
  tenant_mismatch : Exception
  unknown_throttler : Exception
  missing_device_fingerprint : Exception

pub data Result {ℓ} (A : Type ℓ) : Type ℓ where
  ok : A → Result A
  err : Exception → Result A

abbrev pub Exec {ℓ} : Type ℓ → Type ℓ → Type ℓ
Exec S A = S → Result A × S

module _ {ℓ} {S A : Type ℓ} where
  abbrev pub pure : A → Exec S A
  pure a s = (ok a, s)

  -- `throw new …`
  abbrev pub throw : Exception → Exec S A
  throw e s = (err e, s)

  -- a read of the stores
  abbrev pub gets : (S → A) → Exec S A
  gets f s = (ok (f s), s)

-- a write to the stores
abbrev pub modify : {S : Type 0} → (S → S) → Exec S (Unit {0})
modify f s = (ok tt, f s)

module _ {ℓ} {S A B : Type ℓ} where
  abbrev pub continue : (A → Exec S B) → Result A → S → Result B × S
  continue f (ok a) s = f a s
  continue f (err e) s = (err e, s)

  infixl 10 ◌>>=◌ ◌>>◌
  -- `await m`, then the rest
  abbrev pub ◌>>=◌ : Exec S A → (A → Exec S B) → Exec S B
  ◌>>=◌ m f s = continue f (m s).0 (m s).1

  abbrev pub ◌>>◌ : Exec S A → Exec S B → Exec S B
  m >> n = m >>= λ _. n

  -- A block that returns got through its first step.
  pub >>=-eq-ok :
      (m : Exec S A) (f : A → Exec S B) (s : S) {b : B} {s' : S}
      → (m >>= f) s ≡ (ok b, s')
      → (a : A) × (t : S) × (m s ≡ (ok a, t)) × (f a t ≡ (ok b, s'))
  >>=-eq-ok m f s {b} {s'} h = from_step (m s) refl h
    where
      from_step :
          (r : Result A × S)
          → m s ≡ r
          → continue f r.0 r.1 ≡ (ok b, s')
          → (a : A) × (t : S) × (m s ≡ (ok a, t)) × (f a t ≡ (ok b, s'))
      from_step (ok a, t) e h = (a, t, e, h)
      from_step (err x, t) e h = cc

-- Two steps that return, one after the other.
pub >>-ok :
    {S A B : Type 0} (m : Exec S A) (n : Exec S B) (s : S) {a : A} {t : S} {r : Result B × S}
    → m s ≡ (ok a, t)
    → n t ≡ r
    → (m >> n) s ≡ r
>>-ok m n s h h' = rw (h, h') refl

-- What the first step keeps, and every continuation, the block keeps.
pub >>=-keeps :
    {S A B : Type 0} (P : S → Type 0) (m : Exec S A) (f : A → Exec S B) (s : S)
    → P (m s).1
    → ((a : A) (t : S) → P t → P (f a t).1)
    → P ((m >>= f) s).1
>>=-keeps {S} {A} {B} P m f s h step = from_step (m s) h
  where
    from_step : (r : Result A × S) → P r.1 → P (continue f r.0 r.1).1
    from_step (ok a, t) h = step a t h
    from_step (err e, t) h = h

-- `if (test) throw …`
abbrev pub throw_if : {S : Type 0} → Bool → Exception → Exec S (Unit {0})
throw_if true e s = (err e, s)
throw_if false e s = (ok tt, s)

-- what an operation that changes nothing answers
abbrev pub of_result : {S A : Type 0} → Result A → Exec S A
of_result r s = (r, s)

-- a write on one branch only
abbrev pub when : {S : Type 0} → Bool → Exec S (Unit {0}) → Exec S (Unit {0})
when b m s = if b then m s else (ok tt, s)

-- what a `find…` answers, or the exception of the caller
abbrev pub or_throw : {S A : Type 0} → Exception → Option A → Exec S A
or_throw e none s = (err e, s)
or_throw e (some a) s = (ok a, s)

-- Inversion of the guards at the head of a block.
module _ {S B : Type 0} where
  pub throw_if-bind :
      (b : Bool) (e : Exception) (k : Unit {0} → Exec S B) (s : S) {r : B} {s' : S}
      → (throw_if b e >>= k) s ≡ (ok r, s')
      → (b ≡ false) × (k tt s ≡ (ok r, s'))
  throw_if-bind true e k s h = cc
  throw_if-bind false e k s h = (refl, h)

  pub of_result-bind :
      {A : Type 0} (x : Result A) (k : A → Exec S B) (s : S) {r : B} {s' : S}
      → (of_result x >>= k) s ≡ (ok r, s')
      → (a : A) × (x ≡ ok a) × (k a s ≡ (ok r, s'))
  of_result-bind (err e) k s h = absurd (cc)
  of_result-bind (ok a) k s h = (a, refl, h)

  pub or_throw-bind :
      {A : Type 0} (e : Exception) (o : Option A) (k : A → Exec S B) (s : S) {r : B} {s' : S}
      → (or_throw e o >>= k) s ≡ (ok r, s')
      → (a : A) × (o ≡ some a) × (k a s ≡ (ok r, s'))
  or_throw-bind e none k s h = absurd (cc)
  or_throw-bind e (some a) k s h = (a, refl, h)

  pub or_throw-eq-ok :
      (e : Exception) (o : Option B) (s : S) {r : B} {s' : S}
      → or_throw e o s ≡ (ok r, s')
      → (o ≡ some r) × (s' ≡ s)
  or_throw-eq-ok e none s h = absurd (cc)
  or_throw-eq-ok e (some a) s h = ground arith
