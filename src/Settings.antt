-- ===== src/Settings.antt =====
-- service/settings.service.ts: a cache in Redis, without deadlines, in front of the active rows of
-- authora_config and tenant_config. A pipeline is its commands in order.
pub mod Serialization
pub mod Cache
pub mod Catalog
pub mod Represents
pub mod Reads
pub mod Writes
pub mod Refinement
pub mod TenantReads
pub mod Unowned
pub mod UnownedReads
use authora.Prelude.{
  ℕ, String, true, false, Option, none, some, List, [], ◌∷◌, map, if◌then◌else◌, ◌==◌,
}
use mathlib.Core.Option
use authora.Config.{TenantConfig}
use authora.Config.Names.{AuthoraSetting, TenantSetting, authora_keys, tenant_keys}
use authora.Config.Values.{
  SettingValue, flag_value, number_value, not_a_number, text_value, type_of, JsType, boolean,
  number, string, authora_value, put_authora, TenantSettingValue, kind, untyped, tenant_value,
  put_tenant,
}
use authora.Config.Defaults.{default_authora_config, default_tenant_config}
use authora.Config.Decimal.{to_text, to_number}
use authora.Config.Entities.{AuthoraConfigEntity, TenantConfigEntity, TenantEntity}
use authora.Redis.{text}
use authora.Redis.Keys.{Key, settings_authora_key, settings_tenant_key}
use authora.Exec.{
  pure, gets, modify, or_throw, ◌>>=◌, ◌>>◌, no_active_authora_config, tenant_not_found,
  no_active_tenant_config,
}
use authora.Sessions.{as_text}
use authora.Site.{Site, SiteState, Task}
use authora.Site.AuthoraConfigs
use authora.Site.TenantConfigs
use authora.Site.Tenants

unfoldable pub serialize : SettingValue → String
serialize (flag_value true) = "true"
serialize (flag_value false) = "false"
serialize (number_value n) = to_text n
serialize not_a_number = "NaN"
serialize (text_value s) = s

abbrev pub as_number : Option ℕ → SettingValue
as_number (some n) = number_value n
as_number none = not_a_number

abbrev pub deserialize_as : JsType → String → SettingValue
deserialize_as boolean raw = flag_value (raw == "true")
deserialize_as number raw = as_number (to_number raw)
deserialize_as string raw = text_value raw

unfoldable pub deserialize : String → SettingValue → SettingValue
deserialize raw reference = deserialize_as (type_of reference) raw

-- the result of `getMany` from the replies of MGET, `none` if one is missing
unfoldable pub from_replies :
    {K : Type 0}
    → (K → SettingValue)
    → List K
    → List (Option String)
    → Option (List (K × SettingValue))
from_replies reference [] _ = some []
from_replies reference (k ∷ ks) [] = none
from_replies reference (k ∷ ks) (none ∷ replies) = none
from_replies reference (k ∷ ks) (some raw ∷ replies) =
    Option.map (◌∷◌ (k, deserialize raw (reference k))) (from_replies reference ks replies)

-- `result[key] = active[key]` for each key
abbrev pub read_all : {K : Type 0} → (K → SettingValue) → List K → List (K × SettingValue)
read_all value keys = map (λ k. (k, value k)) keys

module _ {b : Site} where
  -- `GET key`, as the text that it replies
  abbrev pub reply : SiteState b → Key → Option String
  reply s key = as_text (b.platform.redis.get s.world.redis s.world.now key)

  abbrev pub with_redis : SiteState b → b.platform.redis.Store → SiteState b
  with_redis s r = record s { world = record s.world { redis = r } }

  abbrev pub cache : Key → SettingValue → Task b (Unit {0})
  cache key value =
      modify (λ s. with_redis s (b.platform.redis.set s.world.redis key (text (serialize value))))

  -- the pipeline that sets every key
  unfoldable pub cache_all :
      {K : Type 0} → (K → Key) → (K → SettingValue) → List K → Task b (Unit {0})
  cache_all key value [] = pure tt
  cache_all key value (k ∷ ks) = do cache (key k) (value k); cache_all key value ks

  unfoldable pub refresh_authora_cache : Task b (Unit {0})
  refresh_authora_cache = do
    active ← AuthoraConfigs.find_active
    elim active [
      | none ↦ pure tt
      | some e ↦ cache_all settings_authora_key (authora_value e.config) authora_keys
    ]

  -- `_refreshTenantCacheFromEntity`
  abbrev pub refresh_tenant_cache_from_entity : TenantConfig → String → Task b (Unit {0})
  refresh_tenant_cache_from_entity config tenant_id =
      cache_all (settings_tenant_key tenant_id) (tenant_value config) tenant_keys

  unfoldable pub refresh_tenant_cache : String → Task b (Unit {0})
  refresh_tenant_cache tenant_id = do
    found ← Tenants.find_by_slug tenant_id
    elim found [
      | none ↦ pure tt
      | some tenant ↦ do
        active ← TenantConfigs.find_active tenant
        elim active [
          | none ↦ pure tt
          | some e ↦ refresh_tenant_cache_from_entity e.config tenant.id
        ]
    ]

  -- the SQL fallback of the reads of Authora's settings
  abbrev pub load_authora : Task b AuthoraConfigEntity
  load_authora = do
    active ← AuthoraConfigs.find_active
    e ← or_throw no_active_authora_config active
    refresh_authora_cache
    pure e

  -- `_getAuthora`
  unfoldable pub get_authora : AuthoraSetting → Task b SettingValue
  get_authora key = do
    raw ← gets (λ s. reply s (settings_authora_key key))
    elim raw [
      | some r ↦ pure (deserialize r (authora_value default_authora_config key))
      | none ↦ do e ← load_authora; pure (authora_value e.config key)
    ]

  -- the values from the cache, or those of the active row
  abbrev pub or_load_authora :
      List AuthoraSetting
      → Option (List (AuthoraSetting × SettingValue))
      → Task b (List (AuthoraSetting × SettingValue))
  or_load_authora keys (some values) = pure values
  or_load_authora keys none = do e ← load_authora; pure (read_all (authora_value e.config) keys)

  -- `getMany` with keys of AuthoraSetting
  unfoldable pub get_many_authora :
      List AuthoraSetting → Task b (List (AuthoraSetting × SettingValue))
  get_many_authora [] = pure []
  get_many_authora (k ∷ ks) = do
    replies ← gets (λ s. map (λ key. reply s (settings_authora_key key)) (k ∷ ks))
    or_load_authora (k ∷ ks) (from_replies (authora_value default_authora_config) (k ∷ ks) replies)

  -- `_findActiveTenantConfig`
  unfoldable pub find_active_tenant_config : String → Task b (TenantConfigEntity × String)
  find_active_tenant_config tenant_id = do
    found ← Tenants.find_by_slug tenant_id
    tenant ← or_throw tenant_not_found found
    active ← TenantConfigs.find_active tenant
    e ← or_throw no_active_tenant_config active
    pure (e, tenant.id)

  -- the SQL fallback of the reads of a tenant's settings
  abbrev pub load_tenant : String → Task b TenantConfigEntity
  load_tenant tenant_id = do
    (e, resolved_tenant_id) ← find_active_tenant_config tenant_id
    refresh_tenant_cache_from_entity e.config resolved_tenant_id
    pure e

  -- `_getTenant`
  unfoldable pub get_tenant : TenantSetting → String → Task b SettingValue
  get_tenant key tenant_id = do
    raw ← gets (λ s. reply s (settings_tenant_key tenant_id key))
    elim raw [
      | some r ↦ pure (deserialize r (tenant_value (default_tenant_config b.ui_base_url) key))
      | none ↦ do e ← load_tenant tenant_id; pure (tenant_value e.config key)
    ]

  abbrev pub or_load_tenant :
      String
      → List TenantSetting
      → Option (List (TenantSetting × SettingValue))
      → Task b (List (TenantSetting × SettingValue))
  or_load_tenant tenant_id keys (some values) = pure values
  or_load_tenant tenant_id keys none = do
    e ← load_tenant tenant_id
    pure (read_all (tenant_value e.config) keys)

  -- `getMany` with keys of TenantSetting
  unfoldable pub get_many_tenant :
      List TenantSetting → String → Task b (List (TenantSetting × SettingValue))
  get_many_tenant [] tenant_id = pure []
  get_many_tenant (k ∷ ks) tenant_id = do
    replies ← gets (λ s. map (λ key. reply s (settings_tenant_key tenant_id key)) (k ∷ ks))
    or_load_tenant tenant_id (k ∷ ks)
        (from_replies (tenant_value (default_tenant_config b.ui_base_url)) (k ∷ ks) replies)

  -- `set` with a key of AuthoraSetting
  unfoldable pub set_authora : AuthoraSetting → ℕ → Task b (Unit {0})
  set_authora key value = do
    active ← AuthoraConfigs.find_active
    e ← or_throw no_active_authora_config active
    AuthoraConfigs.update e.id (λ c. record c { config = put_authora key value c.config })
    cache (settings_authora_key key) (number_value value)

  -- `set` with a key of TenantSetting: the tenant is given by its slug
  unfoldable pub set_tenant :
      (key : TenantSetting) → TenantSettingValue key → String → Task b (Unit {0})
  set_tenant key value slug = do
    found ← Tenants.find_by_slug slug
    tenant ← or_throw tenant_not_found found
    active ← TenantConfigs.find_active tenant
    e ← or_throw no_active_tenant_config active
    TenantConfigs.update e.id (λ c. record c { config = put_tenant key value c.config })
    cache (settings_tenant_key tenant.id key) (untyped (kind key) value)

  unfoldable pub activate_authora_config : String → Task b (Unit {0})
  activate_authora_config id = do AuthoraConfigs.activate id; refresh_authora_cache

  unfoldable pub activate_tenant_config : String → String → Task b (Unit {0})
  activate_tenant_config slug id = do
    found ← Tenants.find_by_slug slug
    tenant ← or_throw tenant_not_found found
    TenantConfigs.activate tenant id
    refresh_tenant_cache tenant.id
