-- ===== src/Config/Entities.antt =====
-- The rows of entity/authora-config.entity.ts, entity/tenant-config.entity.ts, entity/tenant.entity.ts
-- and entity/api-key.entity.ts. The columns of a configuration are its configuration record.
use authora.Prelude.{ℕ, String, Bool}
use authora.Model.{IntegrationMode}
use authora.Config.{AuthoraConfig, TenantConfig}

pub record AuthoraConfigEntity : Type 0 where
  pub id : String
  pub name : String
  pub description : String
  pub is_active : Bool
  pub config : AuthoraConfig
  pub created_at : ℕ
  pub updated_at : ℕ

pub record TenantConfigEntity : Type 0 where
  pub id : String
  pub tenant_id : String
  pub name : String
  pub description : String
  pub is_active : Bool
  pub config : TenantConfig
  pub created_at : ℕ
  pub updated_at : ℕ

pub record TenantEntity : Type 0 where
  pub id : String
  pub slug : String
  pub name : String
  pub integration_mode : IntegrationMode
  pub created_at : ℕ

pub record ApiKeyEntity : Type 0 where
  pub id : String
  pub tenant_id : String
  pub publishable_key : String
  pub secret_key_hash : String
  pub is_active : Bool
  pub created_at : ℕ
