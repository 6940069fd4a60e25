-- ===== src/Http/Middleware.antt =====
-- middleware/*.ts: the tenant of a request.
use authora.Prelude.{String, Bool, false, not, ◌&&◌, Option, none, some, ◌==◌}
use authora.Config.Entities.{TenantEntity, ApiKeyEntity}
use authora.Exec.{
  gets, modify, throw_if, or_throw, ◌>>=◌, ◌>>◌, no_tenant_configured, missing_api_key,
  invalid_api_key, tenant_mismatch, type_error,
}
use authora.Site.{Site, SiteState}
use authora.Http.{Handler, request_of}

-- `existingTenant !== undefined && existingTenant.id !== id`
abbrev pub mismatches : Option TenantEntity → String → Bool
mismatches none id = false
mismatches (some t) id = not (t.id == id)

module _ {b : Site} where
  abbrev pub key_row : SiteState b → String → Option ApiKeyEntity
  key_row s key = b.api_keys.find_one (λ k. k.publishable_key == key && k.is_active) s.api_keys

  -- the relation `tenant` of an API key
  abbrev pub tenant_row : SiteState b → String → Option TenantEntity
  tenant_row s id = b.tenants.find_one (λ t. t.id == id) s.tenants

  -- TenantMiddleware
  unfoldable pub tenant_middleware : Handler b (Unit {0})
  tenant_middleware = do
    found ← gets (λ x. b.tenants.find_one (λ t. t.slug == "default") x.site.tenants)
    tenant ← or_throw no_tenant_configured found
    modify (λ x. record x { request = record x.request { tenant = some tenant } })

  -- ClientMiddleware
  unfoldable pub client_middleware : Handler b (Unit {0})
  client_middleware = do
    req ← request_of
    key ← or_throw missing_api_key req.authora_key
    found ← gets (λ x. key_row x.site key)
    api_key ← or_throw invalid_api_key found
    related ← gets (λ x. tenant_row x.site api_key.tenant_id)
    tenant ← or_throw type_error related
    throw_if (mismatches req.tenant tenant.id) tenant_mismatch
    modify (λ x. record x {
      request = record x.request { tenant = some tenant; api_key = some api_key };
    })
