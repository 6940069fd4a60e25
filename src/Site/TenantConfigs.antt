-- ===== src/Site/TenantConfigs.antt =====
-- service/entity-service/tenant-config-entity.service.ts. `updatedAt` takes the time of an update.
use authora.Prelude.{ℕ, String, Bool, false, true, ◌&&◌, Option, List, ◌==◌}
use authora.Config.Entities.{TenantConfigEntity, TenantEntity}
use authora.Config.Defaults.{default_tenant_config}
use authora.Exec.{pure, gets, modify, ◌>>=◌, ◌>>◌}
use authora.World.{draw, time}
use authora.Site.{Site, Task, lift}

-- what an update writes
abbrev pub stamped :
    ℕ → (TenantConfigEntity → TenantConfigEntity) → TenantConfigEntity → TenantConfigEntity
stamped now patch e = record (patch e) { updated_at = now }

abbrev pub activated : Bool → TenantConfigEntity → TenantConfigEntity
activated active e = record e { is_active = active }

module _ {b : Site} where
  -- `data` is the change of the default columns; the tenant is set last
  unfoldable pub create :
      TenantEntity → (TenantConfigEntity → TenantConfigEntity) → Task b TenantConfigEntity
  create tenant data_of = do
    n ← lift draw
    now ← lift time
    let given : TenantConfigEntity = data_of (record {
      id = b.platform.uuid n;
      tenant_id = "";
      name = "";
      description = "";
      is_active = false;
      config = default_tenant_config b.ui_base_url;
      created_at = now;
      updated_at = now;
    })
    let created : TenantConfigEntity = record given { tenant_id = tenant.id }
    modify (λ s. record s { tenant_configs = b.tenant_configs.insert created s.tenant_configs })
    pure created

  unfoldable pub find_active : TenantEntity → Task b (Option TenantConfigEntity)
  find_active tenant = gets (λ s.
      b.tenant_configs.find_one (λ e. e.tenant_id == tenant.id && e.is_active) s.tenant_configs)

  unfoldable pub find_by_id : String → Task b (Option TenantConfigEntity)
  find_by_id id = gets (λ s. b.tenant_configs.find_one (λ e. e.id == id) s.tenant_configs)

  unfoldable pub find_all_for_tenant : TenantEntity → Task b (List TenantConfigEntity)
  find_all_for_tenant tenant = gets (λ s.
      b.tenant_configs.find (λ e. e.tenant_id == tenant.id) (λ e. e.created_at) s.tenant_configs)

  abbrev pub update_where :
      (TenantConfigEntity → Bool) → (TenantConfigEntity → TenantConfigEntity) → Task b (Unit {0})
  update_where p patch = modify (λ s. record s {
    tenant_configs = b.tenant_configs.update p (stamped s.world.now patch) s.tenant_configs;
  })

  unfoldable pub update : String → (TenantConfigEntity → TenantConfigEntity) → Task b (Unit {0})
  update id patch = update_where (λ e. e.id == id) patch

  unfoldable pub activate : TenantEntity → String → Task b (Unit {0})
  activate tenant id = do
    update_where (λ e. e.tenant_id == tenant.id) (activated false)
    update_where (λ e. e.id == id) (activated true)

  unfoldable pub delete : String → Task b (Unit {0})
  delete id = modify (λ s. record s {
    tenant_configs = b.tenant_configs.remove (λ e. e.id == id) s.tenant_configs;
  })
