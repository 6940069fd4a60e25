-- ===== src/Site/Tenants.antt =====
-- service/entity-service/tenant-entity.service.ts and service/entity-service/api-key-entity.service.ts.
use authora.Prelude.{String, true, Option, ◌==◌}
use authora.Model.{hybrid}
use authora.Config.Entities.{TenantEntity, ApiKeyEntity}
use authora.Exec.{pure, gets, modify, ◌>>=◌, ◌>>◌}
use authora.World.{draw, time}
use authora.Site.{Site, Task, lift}

module _ {b : Site} where
  unfoldable pub create : String → String → Task b TenantEntity
  create slug name = do
    n ← lift draw
    now ← lift time
    let created : TenantEntity = record {
      id = b.platform.uuid n;
      slug = slug;
      name = name;
      integration_mode = hybrid;
      created_at = now;
    }
    modify (λ s. record s { tenants = b.tenants.insert created s.tenants })
    pure created

  unfoldable pub find_by_slug : String → Task b (Option TenantEntity)
  find_by_slug slug = gets (λ s. b.tenants.find_one (λ t. t.slug == slug) s.tenants)

  unfoldable pub create_api_key : TenantEntity → String → String → Task b String
  create_api_key tenant publishable_key clear_secret_key = do
    n ← lift draw
    now ← lift time
    let created : ApiKeyEntity = record {
      id = b.platform.uuid n;
      tenant_id = tenant.id;
      publishable_key = publishable_key;
      secret_key_hash = b.platform.sha256 clear_secret_key;
      is_active = true;
      created_at = now;
    }
    modify (λ s. record s { api_keys = b.api_keys.insert created s.api_keys })
    pure clear_secret_key

  -- the criterion does not ask for `isActive`
  unfoldable pub find_active_for_tenant : TenantEntity → Task b (Option ApiKeyEntity)
  find_active_for_tenant tenant =
      gets (λ s. b.api_keys.find_one (λ k. k.tenant_id == tenant.id) s.api_keys)
