-- ===== src/Controllers/Password/Refused.antt =====
-- Both endpoints ask for the settings of the tenant '', which no tenant is.
use authora.Prelude.{ℕ, String, ◌≡◌, refl, ap, Option, none, List, [], ◌∷◌}
use authora.Config.Names.{TenantSetting}
use authora.Exec.{err, tenant_not_found}
use authora.Redis.Keys.{settings_tenant_key}
use authora.Sessions.{as_text}
use authora.Settings.{reply, get_tenant, get_many_tenant, find_active_tenant_config, from_replies}
use authora.Settings.TenantReads.{by_slug}
use authora.Settings.Unowned.{NoOwner}
use authora.Settings.UnownedReads.{Reachable, Reachable-NoOwner, unowned_refused}
use authora.Site.{Site, SiteState}
use authora.Site.Tenants
use authora.Http.{Exchange}
use authora.Controllers.Password.{
  TextServices, constraints, run_constraints, check_strength, get_rules,
}

module _ {b : Site} where
  get_many_tenant-unknown :
      (k : TenantSetting) (ks : List TenantSetting) (id : String) (s : SiteState b)
      → reply s (settings_tenant_key id k) ≡ none
      → by_slug s id ≡ none
      → get_many_tenant (k ∷ ks) id s ≡ (err tenant_not_found, s)
  unfolding get_many_tenant find_active_tenant_config Tenants.find_by_slug from_replies
  get_many_tenant-unknown k ks id s miss unknown = rw (miss, unknown) refl

  run_constraints-refused :
      (t : TextServices) (value : List ℕ) (s : SiteState b)
      → get_tenant TenantSetting.password_min_length "" s ≡ (err tenant_not_found, s)
      → run_constraints (constraints t) value s ≡ (err tenant_not_found, s)
  unfolding run_constraints
  run_constraints-refused t value s refused = rw refused refl

  check_strength-refused :
      (t : TextServices) (password : List ℕ) (email : Option (List ℕ)) (x : Exchange b)
      → run_constraints (constraints t) password x.site ≡ (err tenant_not_found, x.site)
      → check_strength t password email x ≡ (err tenant_not_found, x)
  unfolding check_strength
  check_strength-refused t password email x refused = rw refused refl

  get_rules-refused :
      (x : Exchange b)
      → reply x.site (settings_tenant_key "" TenantSetting.password_min_length) ≡ none
      → by_slug x.site "" ≡ none
      → get_rules x ≡ (err tenant_not_found, x)
  unfolding get_rules
  get_rules-refused x miss unknown =
      rw
        (get_many_tenant-unknown TenantSetting.password_min_length
          (TenantSetting.password_require_digit ∷ TenantSetting.password_require_special_char
            ∷ TenantSetting.password_require_lowercase ∷ TenantSetting.password_require_uppercase
            ∷ TenantSetting.password_forbid_sequential_chars
            ∷ TenantSetting.password_forbid_repeated_chars
            ∷ TenantSetting.password_forbid_keyboard_sequence
            ∷ TenantSetting.password_forbid_user_info
            ∷ TenantSetting.password_forbid_common_password ∷ [])
          "" x.site miss unknown)
        refl

  -- If no tenant has the id "", nor the slug "", and nothing is cached under that id, then after
  -- any sequence of calls of SettingsService both endpoints of the password controller answer
  -- "tenant not found", whatever the password and the email are, and change nothing.
  pub password_endpoints_refused :
      (t : TextServices) (password : List ℕ) (email : Option (List ℕ)) {s : SiteState b}
      (x : Exchange b)
      → NoOwner "" s
      → Reachable s x.site
      → (check_strength t password email x ≡ (err tenant_not_found, x))
        × (get_rules x ≡ (err tenant_not_found, x))
  password_endpoints_refused t password email x h r =
      let kept = Reachable-NoOwner "" r h in
      let refused = unowned_refused "" TenantSetting.password_min_length h r in
      (
        check_strength-refused t password email x
            (run_constraints-refused t password x.site refused),
        get_rules-refused x
            (ap as_text (kept.uncached x.site.world.now TenantSetting.password_min_length))
            kept.no_slug,
      )
