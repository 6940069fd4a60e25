-- ===== src/Controllers/TenantAdmin/Foreign.antt =====
-- Whose settings an administrator can change: the request's tenant, which is not compared with the
-- administrator's own.
use authora.Prelude.{
  String, true, false, ◌≡◌, refl, sym, ◌∙◌, ap, some, some_inj, ◌==◌, ◌&&◌, subst,
}
use authora.Model.{UserEntity}
use authora.Config.Names.{TenantSetting}
use authora.Config.Values.{TenantSettingValue, kind, untyped}
use authora.Config.Entities.{TenantEntity, TenantConfigEntity}
use authora.Exec.{ok}
use authora.Site.{Site, SiteState}
use authora.Site.TenantConfigs
use authora.Site.Tenants
use authora.Settings.{get_tenant, set_tenant}
use authora.Settings.TenantReads.{by_slug, set_then_get}
use authora.Http.{Exchange, bearer}
use authora.Http.Guards.{admin_guard, is_admin}
use authora.Http.Admission.{jwt_auth_guard_complete}
use authora.Controllers.TenantAdmin.{update_setting}

module _ {b : Site} where
  set_tenant-some :
      (key : TenantSetting) (v : TenantSettingValue key) (s : SiteState b) (tenant : TenantEntity)
      (e : TenantConfigEntity)
      → by_slug s tenant.slug ≡ some tenant
      → b.tenant_configs.find_one (λ c. c.tenant_id == tenant.id && c.is_active) s.tenant_configs
        ≡ some e
      → (s' : SiteState b) × (set_tenant key v tenant.slug s ≡ (ok tt, s'))
  unfolding set_tenant Tenants.find_by_slug TenantConfigs.find_active TenantConfigs.update
  set_tenant-some key v s tenant e found active =
      ((set_tenant key v tenant.slug s).1, rw (found, active) refl)

  -- A request whose token names an administrator that is not locked changes the settings of the
  -- tenant that the request has, with one row for its slug and an active configuration, whichever
  -- tenant the administrator belongs to; the setting of that tenant is then read as the value
  -- that was sent.
  pub any_admin_sets :
      (key : TenantSetting) (v : TenantSettingValue key) (x : Exchange b) (token id : String)
      (u : UserEntity) (tenant : TenantEntity) (e : TenantConfigEntity)
      → bearer x.request.authorization ≡ some token
      → b.verify token x.site.world.now ≡ some id
      → b.platform.users.find_one (λ r. r.id == id) x.site.world.users ≡ some u
      → u.is_locked ≡ false
      → is_admin u.role ≡ true
      → x.request.tenant ≡ some tenant
      → by_slug x.site tenant.slug ≡ some tenant
      → b.tenant_configs.find_one
          (λ c. c.tenant_id == tenant.id && c.is_active)
          x.site.tenant_configs
        ≡ some e
      → (x' : Exchange b) × (update_setting key v x ≡ (ok tt, x'))
        × (get_tenant key tenant.id x'.site ≡ (ok (untyped (kind key) v), x'.site))
  unfolding update_setting admin_guard
  any_admin_sets key v x token id u tenant e header verified found unlocked admin asked there
        active =
      let passed = jwt_auth_guard_complete x token id u header verified found unlocked in
      let (s', done) = set_tenant-some key v x.site tenant e there active in
      let (t, there', read) = set_then_get key v tenant.slug x.site done in
      let same : t.id ≡ tenant.id = ap (λ y. y.id) (some_inj (sym there' ∙ there)) in
      (
        record x { site = s'; request = record x.request { user = some u } },
        rw (passed, admin, asked, done) refl,
        subst (λ i. get_tenant key i s' ≡ (ok (untyped (kind key) v), s')) same read,
      )
