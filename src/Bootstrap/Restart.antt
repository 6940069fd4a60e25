-- ===== src/Bootstrap/Restart.antt =====
-- A restart: the server comes up with its tables and no promises, and the hooks find everything.
use authora.Prelude.{false, ◌≡◌, refl, none}
use authora.Exec.{ok}
use authora.Site.{Site, SiteState}
use authora.Site.AuthoraConfigs
use authora.Site.TenantConfigs
use authora.Site.Tenants
use authora.Users
use authora.Bootstrap.{
  Server, Promises, bootstrap_tenant, bootstrap_authora_config, bootstrap_tenant_config,
  bootstrap_api_key, bootstrap_admin_user, create_default_tenant, create_default_authora_config,
  create_default_tenant_config, create_default_api_key, create_admin_user,
}
use authora.Bootstrap.Found.{HasTenant, HasAuthoraConfig, HasTenantConfig, HasApiKey, HasAdmin}
use authora.Bootstrap.Hooks.{
  Hook, tenant, authora_config, tenant_config, api_key, admin_user, bootstrap, Done,
}

abbrev pub no_promises : Promises
no_promises = record {
  admin_user = none;
  api_key = none;
  authora_config = none;
  tenant = none;
  tenant_config = none;
}

module _ {b : Site} where
  abbrev pub restarted : SiteState b → Server b
  restarted s = record { site = s; promises = no_promises }

  found_tenant : (s : SiteState b) → HasTenant s → create_default_tenant s ≡ (ok tt, s)
  unfolding Tenants.find_by_slug
  found_tenant s (x, there) = rw there refl

  found_authora_config :
      (s : SiteState b) → HasAuthoraConfig s → create_default_authora_config s ≡ (ok tt, s)
  unfolding AuthoraConfigs.find_active
  found_authora_config s (e, there) = rw there refl

  found_tenant_config :
      (s : SiteState b) → HasTenantConfig s → create_default_tenant_config s ≡ (ok tt, s)
  unfolding Tenants.find_by_slug TenantConfigs.find_active
  found_tenant_config s (x, e, there, active) = rw (there, active) refl

  found_api_key : (s : SiteState b) → HasApiKey s → create_default_api_key s ≡ (ok tt, s)
  unfolding Tenants.find_by_slug Tenants.find_active_for_tenant
  found_api_key s (x, k, there, key) = rw (there, key) refl

  found_admin : (s : SiteState b) → HasTenant s → HasAdmin s → create_admin_user s ≡ (ok tt, s)
  unfolding Tenants.find_by_slug Users.find_by_email
  found_admin s (x, there) (u, admin) = rw (there, admin) refl

  -- Where the rows of all hooks are found, each hook of a restarted server for one tenant returns
  -- without an exception and changes nothing in the stores.
  pub restart_changes_nothing :
      (h : Hook) (s : SiteState b)
      → ((i : Hook) → Done i s)
      → ((bootstrap false h (restarted s)).0 ≡ ok tt)
        × ((bootstrap false h (restarted s)).1.site ≡ s)
  unfolding bootstrap_tenant bootstrap_authora_config bootstrap_tenant_config bootstrap_api_key
      bootstrap_admin_user
  restart_changes_nothing tenant s done = rw (found_tenant s (done tenant)) (refl, refl)
  restart_changes_nothing authora_config s done =
      rw (found_authora_config s (done authora_config)) (refl, refl)
  restart_changes_nothing tenant_config s done =
      rw (found_tenant s (done tenant), found_tenant_config s (done tenant_config)) (refl, refl)
  restart_changes_nothing api_key s done =
      rw (found_tenant s (done tenant), found_api_key s (done api_key)) (refl, refl)
  restart_changes_nothing admin_user s done =
      rw
        (
          found_tenant s (done tenant),
          found_authora_config s (done authora_config),
          found_admin s (done tenant) (done admin_user),
        )
        (refl, refl)
