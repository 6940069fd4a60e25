-- ===== src/Bootstrap/Made.antt =====
-- The bodies of the bootstrap services that need the default tenant.
use authora.Prelude.{
  ◌≡◌, refl, sym, ◌∙◌, ap, some_inj, none-ne-some, ◌==◌, ◌&&◌, eq_refl, Option-cases, inl, inr,
}
use authora.Repository.Rows.{find_one-insert}
use authora.Site.{Site, SiteState}
use authora.Site.TenantConfigs
use authora.Site.Tenants
use authora.Users
use authora.Passwords
use authora.Bootstrap.{create_default_tenant_config, create_default_api_key, create_admin_user}
use authora.Bootstrap.Found.{
  tenant_config_of, api_key_of, admin_of, Extends-refl, HasTenant, HasTenantConfig, HasApiKey,
  HasAdmin, Makes,
}

module _ {b : Site} where
  pub create_default_tenant_config_lem :
      (s : SiteState b) → HasTenant s → Makes create_default_tenant_config HasTenantConfig s
  unfolding Tenants.find_by_slug TenantConfigs.find_active TenantConfigs.create
  create_default_tenant_config_lem s (x, there) = elim (Option-cases (tenant_config_of s x)) [
    | inr (e, found) ↦ (s, rw (there, found) refl, Extends-refl s, (x, e, there, found))
    | inl missing ↦
        let (e, made) =
          find_one-insert b.tenant_configs (λ e. e.tenant_id == x.id && e.is_active) _
            s.tenant_configs (rw (eq_refl x.id) refl) in
        (
          (create_default_tenant_config s).1,
          rw (there, missing) refl,
          rw (there, missing)
              (record {
                tenant = λ y h. h;
                authora_config = λ e h. h;
                tenant_config = λ y e d h.
                    let same : x ≡ y = some_inj (sym there ∙ d) in
                    absurd (none-ne-some (sym missing ∙ (ap (tenant_config_of s) same ∙ h)));
                api_key = λ y k d h. h;
                admin = λ u h. h;
              }),
          rw (there, missing) (x, e, there, made),
        )
  ]

  pub create_default_api_key_lem :
      (s : SiteState b) → HasTenant s → Makes create_default_api_key HasApiKey s
  unfolding Tenants.find_by_slug Tenants.find_active_for_tenant Tenants.create_api_key
  create_default_api_key_lem s (x, there) = elim (Option-cases (api_key_of s x)) [
    | inr (k, found) ↦ (s, rw (there, found) refl, Extends-refl s, (x, k, there, found))
    | inl missing ↦
        let (k, made) =
          find_one-insert b.api_keys (λ k. k.tenant_id == x.id) _ s.api_keys (eq_refl x.id) in
        (
          (create_default_api_key s).1,
          rw (there, missing) refl,
          rw (there, missing)
              (record {
                tenant = λ y h. h;
                authora_config = λ e h. h;
                tenant_config = λ y e d h. h;
                api_key = λ y k d h.
                    let same : x ≡ y = some_inj (sym there ∙ d) in
                    absurd (none-ne-some (sym missing ∙ (ap (api_key_of s) same ∙ h)));
                admin = λ u h. h;
              }),
          rw (there, missing) (x, k, there, made),
        )
  ]

  pub create_admin_user_lem : (s : SiteState b) → HasTenant s → Makes create_admin_user HasAdmin s
  unfolding Tenants.find_by_slug Users.find_by_email Users.create Passwords.create
  create_admin_user_lem s (x, there) = elim (Option-cases (admin_of s)) [
    | inr (u, found) ↦ (s, rw (there, found) refl, Extends-refl s, (u, found))
    | inl missing ↦ (
      (create_admin_user s).1,
      rw (there, missing) refl,
      rw (there, missing)
          (record {
            tenant = λ y h. h;
            authora_config = λ e h. h;
            tenant_config = λ y e d h. h;
            api_key = λ y k d h. h;
            admin = λ u h. absurd (cc);
          }),
      rw (there, missing)
          (find_one-insert b.platform.users (λ u. u.email == b.admin_email) _ s.world.users
            (eq_refl b.admin_email)),
    )
  ]
