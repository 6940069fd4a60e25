-- ===== src/Settings/Unowned.antt =====
-- The settings under an id that no tenant has: they are never cached, so they can never be read.
-- The password rules and the cron job ask for the settings of the tenant ''.
use authora.Prelude.{
  ℕ, String, false, ◌≡◌, refl, ◌∙◌, Option, none, some, List, [], ◌∷◌, ◌==◌, Option-cases, inl, inr,
  All, All-Member,
}
use authora.Config.Names.{AuthoraSetting, TenantSetting, authora_keys, tenant_keys}
use authora.Config.Values.{SettingValue, number_value, authora_value}
use authora.Config.Entities.{TenantEntity}
use authora.Redis.{text}
use authora.Redis.Keys.{settings_tenant_key, settings_authora_key}
use authora.Exec.{pure, >>=-keeps}
use authora.Site.{Site, SiteState}
use authora.Site.AuthoraConfigs
use authora.Settings.{
  serialize, get_authora, get_many_authora, set_authora, activate_authora_config,
  refresh_authora_cache, cache_all, load_authora, or_load_authora, reply, read_all,
}
use authora.Settings.Cache.{get-pipeline_other, cache_all_lem}
use authora.Settings.TenantReads.{by_slug}

-- No tenant has the id, or the id for a slug, and nothing is cached under it.
pub record IsUnowned (b : Site) (id : String) (tenants : b.tenants.Table)
    (redis : b.platform.redis.Store) : Type 0 where
  pub no_id : All (λ t. (t.id == id) ≡ false) (b.tenants.rows tenants)
  pub no_slug : b.tenants.find_one (λ t. t.slug == id) tenants ≡ none
  pub uncached :
      (later : ℕ) (k : TenantSetting)
      → b.platform.redis.get redis later (settings_tenant_key id k) ≡ none

module _ {b : Site} where
  abbrev pub NoOwner : String → SiteState b → Type 0
  NoOwner id s = IsUnowned b id s.tenants s.world.redis

  -- settings of Authora are cached elsewhere, and so are those of a tenant that there is
  authora_cached :
      (id : String) (s : SiteState b) (value : AuthoraSetting → SettingValue)
      → NoOwner id s
      → NoOwner id (cache_all settings_authora_key value authora_keys s).1
  authora_cached id s value h =
      rw (cache_all_lem settings_authora_key value authora_keys s) (record {
        no_id = h.no_id;
        no_slug = h.no_slug;
        uncached = λ later k.
            get-pipeline_other b.platform.redis settings_authora_key value authora_keys
              s.world.redis later (settings_tenant_key id k) (λ j. refl)
            ∙ h.uncached later k;
      })

  pub other_id :
      (id slug : String) (s : SiteState b) (x : TenantEntity)
      → NoOwner id s
      → by_slug s slug ≡ some x
      → (x.id == id) ≡ false
  other_id id slug s x h found =
      All-Member (λ t. (t.id == id) ≡ false) (b.tenants.rows s.tenants) h.no_id
        (b.tenants.find_one-some (λ t. t.slug == slug) s.tenants x found).1

  pub tenant_cached :
      (id : String) (s : SiteState b) (x : TenantEntity) (value : TenantSetting → SettingValue)
      → NoOwner id s
      → (x.id == id) ≡ false
      → NoOwner id (cache_all (settings_tenant_key x.id) value tenant_keys s).1
  tenant_cached id s x value h other =
      rw (cache_all_lem (settings_tenant_key x.id) value tenant_keys s) (record {
        no_id = h.no_id;
        no_slug = h.no_slug;
        uncached = λ later k.
            get-pipeline_other b.platform.redis (settings_tenant_key x.id) value tenant_keys
              s.world.redis later (settings_tenant_key id k) (λ j. rw other refl)
            ∙ h.uncached later k;
      })

  pub refreshed-NoOwner :
      (id : String) (s : SiteState b) → NoOwner id s → NoOwner id (refresh_authora_cache s).1
  unfolding refresh_authora_cache AuthoraConfigs.find_active
  refreshed-NoOwner id s h =
      elim (Option-cases (b.authora_configs.find_one (λ e. e.is_active) s.authora_configs)) [
        | inl missing ↦ rw missing h
        | inr (e, active) ↦ rw active (authora_cached id s (authora_value e.config) h)
      ]

  load_authora-NoOwner :
      (id : String) (s : SiteState b) → NoOwner id s → NoOwner id (load_authora s).1
  unfolding AuthoraConfigs.find_active
  load_authora-NoOwner id s h =
      elim (Option-cases (b.authora_configs.find_one (λ e. e.is_active) s.authora_configs)) [
        | inl missing ↦ rw missing h
        | inr (e, active) ↦ rw active (
            >>=-keeps (NoOwner id) (refresh_authora_cache) (λ u. pure e) s
              (refreshed-NoOwner id s h) (λ u t h'. h'))
      ]

  pub get_authora-NoOwner :
      (id : String) (k : AuthoraSetting) (s : SiteState b)
      → NoOwner id s
      → NoOwner id (get_authora k s).1
  unfolding get_authora
  get_authora-NoOwner id k s h = elim (Option-cases (reply s (settings_authora_key k))) [
    | inl miss ↦ rw miss (
        >>=-keeps (NoOwner id) load_authora (λ e. pure (authora_value e.config k)) s
          (load_authora-NoOwner id s h) (λ e t h'. h'))
    | inr (raw, hit) ↦ rw hit h
  ]

  or_load_authora-NoOwner :
      (id : String) (ks : List AuthoraSetting) (o : Option (List (AuthoraSetting × SettingValue)))
      (s : SiteState b)
      → NoOwner id s
      → NoOwner id (or_load_authora ks o s).1
  or_load_authora-NoOwner id ks (some values) s h = h
  or_load_authora-NoOwner id ks none s h =
      >>=-keeps (NoOwner id) load_authora (λ e. pure (read_all (authora_value e.config) ks)) s
        (load_authora-NoOwner id s h) (λ e t h'. h')

  pub get_many_authora-NoOwner :
      (id : String) (ks : List AuthoraSetting) (s : SiteState b)
      → NoOwner id s
      → NoOwner id (get_many_authora ks s).1
  unfolding get_many_authora
  get_many_authora-NoOwner id [] s h = h
  get_many_authora-NoOwner id (k ∷ ks) s h = or_load_authora-NoOwner id (k ∷ ks) _ s h

  pub set_authora-NoOwner :
      (id : String) (k : AuthoraSetting) (v : ℕ) (s : SiteState b)
      → NoOwner id s
      → NoOwner id (set_authora k v s).1
  unfolding set_authora AuthoraConfigs.find_active AuthoraConfigs.update
  set_authora-NoOwner id k v s h =
      elim (Option-cases (b.authora_configs.find_one (λ e. e.is_active) s.authora_configs)) [
        | inl missing ↦ rw missing h
        | inr (e, active) ↦ rw active (record {
          no_id = h.no_id;
          no_slug = h.no_slug;
          uncached = λ later j.
              b.platform.redis.get-set s.world.redis later (settings_authora_key k)
                (settings_tenant_key id j) (text (serialize (number_value v)))
              ∙ h.uncached later j;
        })
      ]

  pub activate_authora_config-NoOwner :
      (id other : String) (s : SiteState b)
      → NoOwner id s
      → NoOwner id (activate_authora_config other s).1
  unfolding activate_authora_config AuthoraConfigs.activate
  activate_authora_config-NoOwner id other s h =
      refreshed-NoOwner id _
        (record { no_id = h.no_id; no_slug = h.no_slug; uncached = h.uncached })
