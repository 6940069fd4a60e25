-- ===== src/Settings/UnownedReads.antt =====
-- No sequence of calls of SettingsService makes the settings under an unowned id readable.
use authora.Prelude.{
  ℕ, String, ◌≡◌, ◌∙◌, ap, Option, none, some, List, [], ◌∷◌, ◌==◌, ◌&&◌, Option-cases, inl, inr,
}
use authora.Config.Names.{AuthoraSetting, TenantSetting, tenant_keys}
use authora.Config.Values.{SettingValue, TenantSettingValue, tenant_value, untyped, kind}
use authora.Config.Entities.{TenantEntity, TenantConfigEntity}
use authora.Redis.{text}
use authora.Redis.Keys.{settings_tenant_key}
use authora.Exec.{err, pure, >>=-keeps, tenant_not_found}
use authora.Sessions.{as_text}
use authora.Site.{Site, SiteState}
use authora.Site.TenantConfigs
use authora.Site.Tenants
use authora.Settings.{
  serialize, get_authora, get_many_authora, set_authora, activate_authora_config,
  refresh_authora_cache, get_tenant, get_many_tenant, set_tenant, activate_tenant_config,
  refresh_tenant_cache, find_active_tenant_config, cache_all, load_tenant, or_load_tenant, reply,
  read_all,
}
use authora.Settings.Catalog.{wait_for}
use authora.Settings.TenantReads.{by_slug, get_tenant-unknown}
use authora.Settings.Unowned.{
  NoOwner, other_id, tenant_cached, refreshed-NoOwner, get_authora-NoOwner,
  get_many_authora-NoOwner, set_authora-NoOwner, activate_authora_config-NoOwner,
}

-- The states that any sequence of calls of SettingsService leads to.
pub data Reachable {b : Site} (s : SiteState b) : SiteState b → Type 0 where
  start : Reachable s s
  waited : (n : ℕ) {t : SiteState b} → Reachable s t → Reachable s (wait_for n t).1
  got : (k : AuthoraSetting) {t : SiteState b} → Reachable s t → Reachable s (get_authora k t).1
  got_many :
      (ks : List AuthoraSetting) {t : SiteState b}
      → Reachable s t
      → Reachable s (get_many_authora ks t).1
  was_set :
      (k : AuthoraSetting) (v : ℕ) {t : SiteState b}
      → Reachable s t
      → Reachable s (set_authora k v t).1
  activated :
      (id : String) {t : SiteState b} → Reachable s t → Reachable s (activate_authora_config id t).1
  refreshed : {t : SiteState b} → Reachable s t → Reachable s (refresh_authora_cache t).1
  got_tenant :
      (k : TenantSetting) (id : String) {t : SiteState b}
      → Reachable s t
      → Reachable s (get_tenant k id t).1
  got_many_tenant :
      (ks : List TenantSetting) (id : String) {t : SiteState b}
      → Reachable s t
      → Reachable s (get_many_tenant ks id t).1
  set_for_tenant :
      (k : TenantSetting) (v : TenantSettingValue k) (slug : String) {t : SiteState b}
      → Reachable s t
      → Reachable s (set_tenant k v slug t).1
  activated_for_tenant :
      (slug id : String) {t : SiteState b}
      → Reachable s t
      → Reachable s (activate_tenant_config slug id t).1
  refreshed_for_tenant :
      (slug : String) {t : SiteState b}
      → Reachable s t
      → Reachable s (refresh_tenant_cache slug t).1

module _ {b : Site} where
  abbrev active_config : SiteState b → TenantEntity → Option TenantConfigEntity
  active_config s tenant =
      b.tenant_configs.find_one (λ e. e.tenant_id == tenant.id && e.is_active) s.tenant_configs

  refresh_tenant_cache-NoOwner :
      (id slug : String) (s : SiteState b)
      → NoOwner id s
      → NoOwner id (refresh_tenant_cache slug s).1
  unfolding refresh_tenant_cache Tenants.find_by_slug TenantConfigs.find_active
  refresh_tenant_cache-NoOwner id slug s h = elim (Option-cases (by_slug s slug)) [
    | inl missing ↦ rw missing h
    | inr (x, found) ↦ elim (Option-cases (active_config s x)) [
      | inl missing ↦ rw (found, missing) h
      | inr (e, active) ↦
          rw (found, active)
            (tenant_cached id s x (tenant_value e.config) h (other_id id slug s x h found))
    ]
  ]

  load_tenant-NoOwner :
      (id slug : String) (s : SiteState b) → NoOwner id s → NoOwner id (load_tenant slug s).1
  unfolding find_active_tenant_config Tenants.find_by_slug TenantConfigs.find_active
  load_tenant-NoOwner id slug s h = elim (Option-cases (by_slug s slug)) [
    | inl missing ↦ rw missing h
    | inr (x, found) ↦ elim (Option-cases (active_config s x)) [
      | inl missing ↦ rw (found, missing) h
      | inr (e, active) ↦
          rw (found, active)
            (>>=-keeps (NoOwner id)
              (cache_all (settings_tenant_key x.id) (tenant_value e.config) tenant_keys)
              (λ u. pure e) s
              (tenant_cached id s x (tenant_value e.config) h (other_id id slug s x h found))
              (λ u t h'. h'))
    ]
  ]

  get_tenant-NoOwner :
      (id : String) (k : TenantSetting) (slug : String) (s : SiteState b)
      → NoOwner id s
      → NoOwner id (get_tenant k slug s).1
  unfolding get_tenant
  get_tenant-NoOwner id k slug s h = elim (Option-cases (reply s (settings_tenant_key slug k))) [
    | inl miss ↦ rw miss (
        >>=-keeps (NoOwner id) (load_tenant slug) (λ e. pure (tenant_value e.config k)) s
          (load_tenant-NoOwner id slug s h) (λ e t h'. h'))
    | inr (raw, hit) ↦ rw hit h
  ]

  or_load_tenant-NoOwner :
      (id slug : String) (ks : List TenantSetting)
      (o : Option (List (TenantSetting × SettingValue))) (s : SiteState b)
      → NoOwner id s
      → NoOwner id (or_load_tenant slug ks o s).1
  or_load_tenant-NoOwner id slug ks (some values) s h = h
  or_load_tenant-NoOwner id slug ks none s h =
      >>=-keeps (NoOwner id) (load_tenant slug) (λ e. pure (read_all (tenant_value e.config) ks)) s
        (load_tenant-NoOwner id slug s h) (λ e t h'. h')

  get_many_tenant-NoOwner :
      (id : String) (ks : List TenantSetting) (slug : String) (s : SiteState b)
      → NoOwner id s
      → NoOwner id (get_many_tenant ks slug s).1
  unfolding get_many_tenant
  get_many_tenant-NoOwner id [] slug s h = h
  get_many_tenant-NoOwner id (k ∷ ks) slug s h = or_load_tenant-NoOwner id slug (k ∷ ks) _ s h

  set_tenant-NoOwner :
      (id : String) (k : TenantSetting) (v : TenantSettingValue k) (slug : String) (s : SiteState b)
      → NoOwner id s
      → NoOwner id (set_tenant k v slug s).1
  unfolding set_tenant Tenants.find_by_slug TenantConfigs.find_active TenantConfigs.update
  set_tenant-NoOwner id k v slug s h = elim (Option-cases (by_slug s slug)) [
    | inl missing ↦ rw missing h
    | inr (x, found) ↦ elim (Option-cases (active_config s x)) [
      | inl missing ↦ rw (found, missing) h
      | inr (e, active) ↦
          rw (found, active)
            (record {
              no_id = h.no_id;
              no_slug = h.no_slug;
              uncached = λ later j.
                  b.platform.redis.get-set s.world.redis later (settings_tenant_key x.id k)
                    (settings_tenant_key id j) (text (serialize (untyped (kind k) v)))
                  ∙ rw (other_id id slug s x h found) (h.uncached later j);
            })
    ]
  ]

  activate_tenant_config-NoOwner :
      (id slug config_id : String) (s : SiteState b)
      → NoOwner id s
      → NoOwner id (activate_tenant_config slug config_id s).1
  unfolding activate_tenant_config Tenants.find_by_slug TenantConfigs.activate
  activate_tenant_config-NoOwner id slug config_id s h = elim (Option-cases (by_slug s slug)) [
    | inl missing ↦ rw missing h
    | inr (x, found) ↦ rw found (
        refresh_tenant_cache-NoOwner id x.id _
          (record { no_id = h.no_id; no_slug = h.no_slug; uncached = h.uncached }))
  ]

  pub Reachable-NoOwner :
      (id : String) {s t : SiteState b} → Reachable s t → NoOwner id s → NoOwner id t
  Reachable-NoOwner id start h = h
  Reachable-NoOwner id (waited n r) h =
      let kept = Reachable-NoOwner id r h in
      record { no_id = kept.no_id; no_slug = kept.no_slug; uncached = kept.uncached }
  Reachable-NoOwner id (got k r) h = get_authora-NoOwner id k _ (Reachable-NoOwner id r h)
  Reachable-NoOwner id (got_many ks r) h =
      get_many_authora-NoOwner id ks _ (Reachable-NoOwner id r h)
  Reachable-NoOwner id (was_set k v r) h = set_authora-NoOwner id k v _ (Reachable-NoOwner id r h)
  Reachable-NoOwner id (activated other r) h =
      activate_authora_config-NoOwner id other _ (Reachable-NoOwner id r h)
  Reachable-NoOwner id (refreshed r) h = refreshed-NoOwner id _ (Reachable-NoOwner id r h)
  Reachable-NoOwner id (got_tenant k slug r) h =
      get_tenant-NoOwner id k slug _ (Reachable-NoOwner id r h)
  Reachable-NoOwner id (got_many_tenant ks slug r) h =
      get_many_tenant-NoOwner id ks slug _ (Reachable-NoOwner id r h)
  Reachable-NoOwner id (set_for_tenant k v slug r) h =
      set_tenant-NoOwner id k v slug _ (Reachable-NoOwner id r h)
  Reachable-NoOwner id (activated_for_tenant slug config_id r) h =
      activate_tenant_config-NoOwner id slug config_id _ (Reachable-NoOwner id r h)
  Reachable-NoOwner id (refreshed_for_tenant slug r) h =
      refresh_tenant_cache-NoOwner id slug _ (Reachable-NoOwner id r h)

  -- If no tenant has the id, nor a slug like it, and nothing is cached under the id, then after
  -- any sequence of calls of SettingsService a read of a tenant setting under that id is answered
  -- by "tenant not found", without a change.
  pub unowned_refused :
      (id : String) (k : TenantSetting) {s t : SiteState b}
      → NoOwner id s
      → Reachable s t
      → get_tenant k id t ≡ (err tenant_not_found, t)
  unowned_refused id k {s} {t} h r =
      let kept = Reachable-NoOwner id r h in
      get_tenant-unknown k id t (ap as_text (kept.uncached t.world.now k)) kept.no_slug
