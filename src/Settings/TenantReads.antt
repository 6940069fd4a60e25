-- ===== src/Settings/TenantReads.antt =====
-- Tenants' settings: they are cached under the tenant's id, but on a miss `_findActiveTenantConfig`
-- and `refreshTenantCache` look for a tenant whose slug is what they are given.
use authora.Prelude.{
  String, ◌≡◌, refl, ◌∙◌, ap, sym, Option, none, some, ◌==◌, ◌&&◌, Option-cases, inl, inr,
}
use authora.Config.Names.{TenantSetting}
use authora.Config.Values.{kind, untyped, tenant_value, TenantSettingValue}
use authora.Config.Updates.{type_of-untyped}
use authora.Config.Defaults.{default_tenant_config}
use authora.Config.Entities.{TenantEntity, TenantConfigEntity}
use authora.Redis.{text}
use authora.Redis.Keys.{settings_tenant_key, same_key_refl}
use authora.Exec.{Result, ok, err, tenant_not_found, no_active_tenant_config, Exception}
use authora.Site.{Site, SiteState}
use authora.Site.TenantConfigs
use authora.Site.Tenants
use authora.Settings.{
  serialize, deserialize, reply, get_tenant, set_tenant, activate_tenant_config,
  refresh_tenant_cache, find_active_tenant_config,
}
use authora.Settings.Serialization.{deserialize-serialize}

ok-ne-err :
    {S A : Type 0} {a : A} {e : Exception} {s t : S}
    → ¬ (◌≡◌ {A = Result A × S} (ok a, s) (err e, t))
ok-ne-err h = cc

module _ {b : Site} where
  abbrev pub by_slug : SiteState b → String → Option TenantEntity
  by_slug s slug = b.tenants.find_one (λ t. t.slug == slug) s.tenants

  pub get_tenant-hit :
      (k : TenantSetting) (id : String) (s : SiteState b) {raw : String}
      → reply s (settings_tenant_key id k) ≡ some raw
      → get_tenant k id s
        ≡ (ok (deserialize raw (tenant_value (default_tenant_config b.ui_base_url) k)), s)
  unfolding get_tenant
  get_tenant-hit k id s hit = rw hit refl

  pub get_tenant-unknown :
      (k : TenantSetting) (id : String) (s : SiteState b)
      → reply s (settings_tenant_key id k) ≡ none
      → by_slug s id ≡ none
      → get_tenant k id s ≡ (err tenant_not_found, s)
  unfolding get_tenant find_active_tenant_config Tenants.find_by_slug
  get_tenant-unknown k id s miss unknown = rw (miss, unknown) refl

  abbrev active_config : SiteState b → TenantEntity → Option TenantConfigEntity
  active_config s tenant =
      b.tenant_configs.find_one (λ e. e.tenant_id == tenant.id && e.is_active) s.tenant_configs

  -- what `set` needs, and what it leaves in Redis
  set_tenant-eq-ok :
      (k : TenantSetting) (v : TenantSettingValue k) (slug : String) (s : SiteState b)
      {s' : SiteState b}
      → set_tenant k v slug s ≡ (ok tt, s')
      → (tenant : TenantEntity) × (by_slug s slug ≡ some tenant)
        × (s'.world.redis
            ≡ b.platform.redis.set s.world.redis
                (settings_tenant_key tenant.id k)
                (text (serialize (untyped (kind k) v))))
  unfolding set_tenant Tenants.find_by_slug TenantConfigs.find_active TenantConfigs.update
  set_tenant-eq-ok k v slug s h = elim (Option-cases (by_slug s slug)) [
    | inl missing ↦ absurd (ok-ne-err {e = tenant_not_found} {t = s} (sym h ∙ rw missing refl))
    | inr (tenant, found) ↦ elim (Option-cases (active_config s tenant)) [
      | inl missing ↦
          absurd
            (ok-ne-err {e = no_active_tenant_config} {t = s} (sym h ∙ rw (found, missing) refl))
      | inr (e, active) ↦
          (tenant, found, ap (λ r. r.1.world.redis) (sym h) ∙ rw (found, active) refl)
    ]
  ]

  -- If `set` of a tenant setting by slug returns, then the tenant is found by the slug, and a
  -- read of the setting by that tenant's id right afterwards answers the value that was set.
  pub set_then_get :
      (k : TenantSetting) (v : TenantSettingValue k) (slug : String) (s : SiteState b)
      {s' : SiteState b}
      → set_tenant k v slug s ≡ (ok tt, s')
      → (tenant : TenantEntity) × (by_slug s slug ≡ some tenant)
        × (get_tenant k tenant.id s' ≡ (ok (untyped (kind k) v), s'))
  set_then_get k v slug s {s'} h =
      let (tenant, found, stored) = set_tenant-eq-ok k v slug s h in
      let key = settings_tenant_key tenant.id k in
      let written = text (serialize (untyped (kind k) v)) in
      let read = b.platform.redis.get-set s.world.redis s'.world.now key key written in
      let hit : reply s' key ≡ some (serialize (untyped (kind k) v)) =
        rw (stored, read, same_key_refl key) refl in
      (
        tenant,
        found,
        get_tenant-hit k tenant.id s' hit
            ∙ ap (λ x. (ok x, s'))
                (deserialize-serialize (untyped (kind k) v)
                  (tenant_value (default_tenant_config b.ui_base_url) k)
                  (type_of-untyped (kind k) v _)),
      )

  -- If the tenant is found by its slug and no tenant has this tenant's id for a slug, then
  -- activating a configuration changes nothing of what any setting of the tenant is read as by
  -- the tenant's id.
  pub activation_unseen :
      (slug id : String) (tenant : TenantEntity) (k : TenantSetting) (s : SiteState b)
      → by_slug s slug ≡ some tenant
      → by_slug s tenant.id ≡ none
      → (get_tenant k tenant.id (activate_tenant_config slug id s).1).0
        ≡ (get_tenant k tenant.id s).0
  unfolding activate_tenant_config refresh_tenant_cache TenantConfigs.activate Tenants.find_by_slug
  activation_unseen slug id tenant k s found unknown =
      rw (found, unknown)
        (elim (Option-cases (reply s (settings_tenant_key tenant.id k))) [
          | inl miss ↦
              ap (λ r. r.0) (get_tenant-unknown k tenant.id _ miss unknown)
              ∙ sym (ap (λ r. r.0) (get_tenant-unknown k tenant.id s miss unknown))
          | inr (raw, hit) ↦
              ap (λ r. r.0) (get_tenant-hit k tenant.id _ hit)
              ∙ sym (ap (λ r. r.0) (get_tenant-hit k tenant.id s hit))
        ])
