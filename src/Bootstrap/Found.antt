-- ===== src/Bootstrap/Found.antt =====
-- What the bodies of the bootstrap services find or make: they always return, and keep what was
-- found before.
use authora.Prelude.{◌≡◌, refl, Option, some, ◌==◌, ◌&&◌, Option-cases, inl, inr}
use authora.Model.{UserEntity}
use authora.Config.Entities.{AuthoraConfigEntity, TenantConfigEntity, TenantEntity, ApiKeyEntity}
use authora.Exec.{ok}
use authora.Repository.Rows.{find_one-insert}
use authora.Site.{Site, SiteState, Task}
use authora.Site.AuthoraConfigs
use authora.Site.Tenants
use authora.Bootstrap.{default_tenant_slug, create_default_tenant, create_default_authora_config}

module _ {b : Site} where
  -- the look-ups of the services
  abbrev pub tenant_of : SiteState b → Option TenantEntity
  tenant_of s = b.tenants.find_one (λ t. t.slug == default_tenant_slug) s.tenants

  abbrev pub authora_config_of : SiteState b → Option AuthoraConfigEntity
  authora_config_of s = b.authora_configs.find_one (λ e. e.is_active) s.authora_configs

  abbrev pub tenant_config_of : SiteState b → TenantEntity → Option TenantConfigEntity
  tenant_config_of s x =
      b.tenant_configs.find_one (λ e. e.tenant_id == x.id && e.is_active) s.tenant_configs

  abbrev pub api_key_of : SiteState b → TenantEntity → Option ApiKeyEntity
  api_key_of s x = b.api_keys.find_one (λ k. k.tenant_id == x.id) s.api_keys

  abbrev pub admin_of : SiteState b → Option UserEntity
  admin_of s = b.platform.users.find_one (λ u. u.email == b.admin_email) s.world.users

  -- what was found is still found
  pub record Extends (s t : SiteState b) : Type 0 where
    pub tenant : (x : TenantEntity) → tenant_of s ≡ some x → tenant_of t ≡ some x
    pub authora_config :
        (e : AuthoraConfigEntity) → authora_config_of s ≡ some e → authora_config_of t ≡ some e
    pub tenant_config :
        (x : TenantEntity) (e : TenantConfigEntity)
        → tenant_of s ≡ some x
        → tenant_config_of s x ≡ some e
        → tenant_config_of t x ≡ some e
    pub api_key :
        (x : TenantEntity) (k : ApiKeyEntity)
        → tenant_of s ≡ some x
        → api_key_of s x ≡ some k
        → api_key_of t x ≡ some k
    pub admin : (u : UserEntity) → admin_of s ≡ some u → admin_of t ≡ some u

  pub Extends-refl : (s : SiteState b) → Extends s s
  Extends-refl s = record {
    tenant = λ x h. h;
    authora_config = λ e h. h;
    tenant_config = λ x e d h. h;
    api_key = λ x k d h. h;
    admin = λ u h. h;
  }

  pub Extends-trans : {s t u : SiteState b} → Extends s t → Extends t u → Extends s u
  Extends-trans f g = record {
    tenant = λ x h. g.tenant x (f.tenant x h);
    authora_config = λ e h. g.authora_config e (f.authora_config e h);
    tenant_config = λ x e d h. g.tenant_config x e (f.tenant x d) (f.tenant_config x e d h);
    api_key = λ x k d h. g.api_key x k (f.tenant x d) (f.api_key x k d h);
    admin = λ u h. g.admin u (f.admin u h);
  }

  abbrev pub HasTenant : SiteState b → Type 0
  HasTenant s = (x : TenantEntity) × (tenant_of s ≡ some x)

  abbrev pub HasAuthoraConfig : SiteState b → Type 0
  HasAuthoraConfig s = (e : AuthoraConfigEntity) × (authora_config_of s ≡ some e)

  abbrev pub HasTenantConfig : SiteState b → Type 0
  HasTenantConfig s =
      (x : TenantEntity) × (e : TenantConfigEntity) × (tenant_of s ≡ some x)
      × (tenant_config_of s x ≡ some e)

  abbrev pub HasApiKey : SiteState b → Type 0
  HasApiKey s =
      (x : TenantEntity) × (k : ApiKeyEntity) × (tenant_of s ≡ some x) × (api_key_of s x ≡ some k)

  abbrev pub HasAdmin : SiteState b → Type 0
  HasAdmin s = (u : UserEntity) × (admin_of s ≡ some u)

  -- a body returns, keeps what was found, and its own row is found then
  abbrev pub Makes : Task b (Unit {0}) → (SiteState b → Type 0) → SiteState b → Type 0
  Makes m P s = (t : SiteState b) × (m s ≡ (ok tt, t)) × Extends s t × P t

  pub create_default_tenant_lem : (s : SiteState b) → Makes create_default_tenant HasTenant s
  unfolding Tenants.find_by_slug Tenants.create
  create_default_tenant_lem s = elim (Option-cases (tenant_of s)) [
    | inr (x, found) ↦ (s, rw found refl, Extends-refl s, (x, found))
    | inl missing ↦ (
      (create_default_tenant s).1,
      rw missing refl,
      rw missing (record {
        tenant = λ x h. absurd (cc);
        authora_config = λ e h. h;
        tenant_config = λ x e d h. h;
        api_key = λ x k d h. h;
        admin = λ u h. h;
      }),
      rw missing (find_one-insert b.tenants (λ t. t.slug == default_tenant_slug) _ s.tenants refl),
    )
  ]

  pub create_default_authora_config_lem :
      (s : SiteState b) → Makes create_default_authora_config HasAuthoraConfig s
  unfolding AuthoraConfigs.find_active AuthoraConfigs.create
  create_default_authora_config_lem s = elim (Option-cases (authora_config_of s)) [
    | inr (e, found) ↦ (s, rw found refl, Extends-refl s, (e, found))
    | inl missing ↦ (
      (create_default_authora_config s).1,
      rw missing refl,
      rw missing (record {
        tenant = λ x h. h;
        authora_config = λ e h. absurd (cc);
        tenant_config = λ x e d h. h;
        api_key = λ x k d h. h;
        admin = λ u h. h;
      }),
      rw missing (find_one-insert b.authora_configs (λ e. e.is_active) _ s.authora_configs refl),
    )
  ]
