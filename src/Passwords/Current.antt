-- ===== src/Passwords/Current.antt =====
-- password-entity.service.ts: which password of a user is current, and when it is accepted.
use authora.Prelude.{
  ℕ, suc, ◌+◌, ◌*◌, ◌≡◌, ◌↔◌, ◌⊎◌, ◌≤◌, ◌++◌, ◌∙◌, ap, refl, subst, String, Bool, true, false, not,
  ◌&&◌, none, some, List, [], ◌∷◌, arith, if◌then◌else◌, Bool-cases, Option-cases, inl, inr, ◌==◌,
  eq_refl, All, All-map_each, select, select_none,
}
use authora.Model.{PasswordEntity, UserEntity, PasswordRevocationReason}
use authora.Config.{TenantConfig}
use authora.Exec.{ok}
use authora.World.{Platform, World}
use authora.Passwords.{
  valid, current, check, is_too_old, revoked, change_user_password, reset_user_password,
}

-- a password of the user that is not revoked
abbrev pub is_current_for : String → PasswordEntity → Bool
is_current_for user_id r = r.user_id == user_id && not r.revoked

current-some :
    (loaded : List PasswordEntity) (r : PasswordEntity)
    → current loaded ≡ some r
    → (before after : List PasswordEntity) × (loaded ≡ before ++ (r ∷ after))
      × All (λ x. x.revoked ≡ true) before
      × (r.revoked ≡ false)
unfolding current
current-some [] r h = absurd (cc)
current-some (x ∷ xs) r h = elim (Bool-cases x.revoked) [
  | inl old ↦
      let (before, after, same, all_old, alive) = current-some xs r (ground arith) in
      (x ∷ before, after, ap (◌∷◌ x) same, (old, all_old), alive)
  | inr alive ↦
      let here : x ≡ r = ground arith in
      ([], xs, ap (λ y. y ∷ xs) here, tt, subst (λ y. y.revoked ≡ false) here alive)
]

current-append :
    (before after : List PasswordEntity) (r : PasswordEntity)
    → All (λ x. x.revoked ≡ true) before
    → r.revoked ≡ false
    → current (before ++ (r ∷ after)) ≡ some r
unfolding current
current-append [] after r all_old alive = rw alive refl
current-append (x ∷ before) after r (old, all_old) alive =
    rw old (current-append before after r all_old alive)

module _ (p : Platform) where
  -- the password is not past the age that the settings allow, if they limit it
  abbrev pub IsYoung : TenantConfig → ℕ → PasswordEntity → Type 0
  IsYoung config now r =
      (config.password_expiration_enabled ≡ false)
      ⊎ (now ≤ r.created_at + config.password_max_age_sec * 1000)

  -- The first password of the list that is not revoked, which has the clear text; the settings of
  -- the tenant '' can be read, and do not make it too old.
  abbrev pub IsValidBy : ℕ → List PasswordEntity → String → PasswordEntity → TenantConfig → Type 0
  IsValidBy now loaded clear r config =
      (before after : List PasswordEntity) × (loaded ≡ before ++ (r ∷ after))
      × All (λ x. x.revoked ≡ true) before
      × (r.revoked ≡ false)
      × (p.argon2_verify r.password_hash clear ≡ true)
      × (p.no_tenant ≡ some config)
      × IsYoung config now r

  young :
      (config : TenantConfig) (now : ℕ) (r : PasswordEntity)
      → is_too_old config now r ≡ false
      → IsYoung config now r
  young config now r h = ground arith

  not_old :
      (config : TenantConfig) (now : ℕ) (r : PasswordEntity)
      → IsYoung config now r
      → is_too_old config now r ≡ false
  not_old config now r h = ground arith

  check-some :
      (now : ℕ) (u : UserEntity) (loaded : List PasswordEntity) (clear : String)
      (r : PasswordEntity)
      → current loaded ≡ some r
      → check p now u loaded clear ≡ ok valid
      → (p.argon2_verify r.password_hash clear ≡ true)
        × ((config : TenantConfig) × (p.no_tenant ≡ some config) × IsYoung config now r)
  unfolding check
  check-some now u loaded clear r e h =
      let h₁ = rw (e, check) at h in
      elim (Bool-cases (p.argon2_verify r.password_hash clear)) [
        | inr wrong ↦ let h₂ = rw wrong at h₁ in absurd (cc)
        | inl fits ↦ elim (Option-cases p.no_tenant) [
          | inl unread ↦ let h₂ = rw (fits, unread) at h₁ in absurd (cc)
          | inr (config, read) ↦
              let h₂ = rw (fits, read) at h₁ in
              (fits, (config, read, young config now r (ground arith)))
        ]
      ]

  -- A password is judged valid exactly if the list of the user's passwords has one that is not
  -- revoked, behind revoked ones only, that one has this clear text, the settings of the tenant
  -- '' can be read, and they do not limit the age of passwords or the one is not older than they
  -- allow.
  pub check-eq-valid_iff :
      (now : ℕ) (u : UserEntity) (loaded : List PasswordEntity) (clear : String)
      → (check p now u loaded clear ≡ ok valid)
        ↔ ((r : PasswordEntity) × (config : TenantConfig) × IsValidBy now loaded clear r config)
  unfolding check
  check-eq-valid_iff now u loaded clear = (
    λ h. elim (Option-cases (current loaded)) [
      | inl e ↦ let h' = rw (e, check) at h in absurd (cc)
      | inr (r, e) ↦
          let (fits, (config, read, fresh)) = check-some now u loaded clear r e h in
          let (before, after, same, all_old, alive) = current-some loaded r e in
          (r, config, (before, after, same, all_old, alive, fits, read, fresh))
    ],
    λ (r, config, valid_by).
        let (before, after, same, all_old, alive, fits, read, fresh) = valid_by in
        let found : current loaded ≡ some r =
          ap current same ∙ current-append before after r all_old alive in
        rw (found, check) (rw (fits, read, not_old config now r fresh) refl),
  )

module _ {p : Platform} where
  abbrev pub password_rows : World p → List PasswordEntity
  password_rows w = p.passwords.rows w.passwords

  -- the password that a change or a reset makes
  abbrev pub fresh : World p → UserEntity → String → PasswordEntity
  fresh w u clear = record {
    id = p.uuid (suc w.draws);
    user_id = u.id;
    password_hash =
        p.argon2_hash p.authora.hash_memory_cost p.authora.hash_time_cost p.authora.hash_parallelism
          w.draws clear;
    revoked = false;
    revocation_reason = none;
    revoked_at = none;
    created_at = w.now;
  }

  none_current :
      (w : World p) (user_id : String) (reason : PasswordRevocationReason)
      → All
          (λ r. is_current_for user_id r ≡ false)
          (p.passwords.rows
            (p.passwords.update (is_current_for user_id) (revoked w.now reason) w.passwords))
  none_current w user_id reason =
      rw (p.passwords.rows-update (is_current_for user_id) (revoked w.now reason) w.passwords)
        (All-map_each (λ r. is_current_for user_id r ≡ false) _ _ failing)
    where
      failing :
          (r : PasswordEntity)
          → is_current_for user_id (if is_current_for user_id r then revoked w.now reason r else r)
            ≡ false
      failing r = elim (Bool-cases (is_current_for user_id r)) [
        | inl e ↦ rw e (ground arith)
        | inr e ↦ rw (e, e) refl
      ]

  -- After a change, and after a reset, of a password the new password is the only one of the user
  -- that is not revoked.
  pub only_current :
      (w : World p) (u : UserEntity) (clear : String)
      → (select (is_current_for u.id) (password_rows (change_user_password u clear w).1)
          ≡ fresh w u clear ∷ [])
        × (select (is_current_for u.id) (password_rows (reset_user_password u clear w).1)
            ≡ fresh w u clear ∷ [])
  unfolding change_user_password reset_user_password
  only_current w u clear =
      let changed =
        select_none (is_current_for u.id) _
          (none_current w u.id PasswordRevocationReason.changed) in
      let reset =
        select_none (is_current_for u.id) _
          (none_current w u.id PasswordRevocationReason.forgot_and_reset) in
      (
        rw (p.passwords.rows-insert _ _) (ground (arith, changed, eq_refl u.id)),
        rw (p.passwords.rows-insert _ _) (ground (arith, reset, eq_refl u.id)),
      )
