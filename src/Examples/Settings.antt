-- ===== src/Examples/Settings.antt =====
-- Runs of the settings on a server with one tenant and two configurations of Authora.
use authora.Prelude.{
  true, false, ◌≡◌, refl, ap, sym, ◌||◌, none, some, List, [], ◌∷◌, ◌==◌, inl, inr, some_inj, ◌∙◌,
  Bool-cases, eq_iff, if◌then◌else◌,
}
use authora.Model.{third_party}
use authora.Config.Names.{AuthoraSetting, TenantSetting}
use authora.Config.Values.{number_value, authora_field, untyped, kind}
use authora.Config.Defaults.{default_authora_config, default_tenant_config}
use authora.Config.Entities.{AuthoraConfigEntity, TenantConfigEntity, TenantEntity, ApiKeyEntity}
use authora.Repository.Listed.{listed, first}
use authora.Redis.Entries.{entries}
use authora.Exec.{ok, err, tenant_not_found}
use authora.Site.{Site, SiteState}
use authora.Site.TenantConfigs
use authora.Site.Tenants
use authora.Settings.{serialize, deserialize, get_tenant, set_tenant, activate_tenant_config}
use authora.Settings.Serialization.{deserialize-serialize}
use authora.Settings.Catalog.{Call, Catalog, get, get_many, set, activate, wait, run, replay}
use authora.Settings.Represents.{IsListed, Represents}
use authora.Settings.Refinement.{run_refines}
use authora.Settings.TenantReads.{by_slug, set_then_get, activation_unseen}
use authora.Settings.Unowned.{IsUnowned}
use authora.Settings.UnownedReads.{start, set_for_tenant, unowned_refused}
use authora.Examples.{demo, demo_world, done_session, no_entries, apart}

unfoldable pub demo_site : Site
unfolding listed
demo_site = record {
  platform = demo;
  authora_configs = listed AuthoraConfigEntity;
  tenant_configs = listed TenantConfigEntity;
  tenants = listed TenantEntity;
  api_keys = listed ApiKeyEntity;
  verify = λ token now. some token;
  sign_super_admin = λ secret expires_in now. secret;
  verify_super_admin = λ token secret now. if token == secret then some "SUPER_ADMIN" else none;
  trim = λ s. s;
  super_admin_username = "root";
  super_admin_password = "toor";
  super_admin_secret = "key";
  ui_base_url = none;
  admin_email = "alice@example.org";
  random_hex_5 = demo.random_hex;
}

abbrev pub first_config : AuthoraConfigEntity
first_config = record {
  id = "c1";
  name = "Default";
  description = "";
  is_active = true;
  config = default_authora_config;
  created_at = 0;
  updated_at = 0;
}

abbrev second_config : AuthoraConfigEntity
second_config = record first_config { id = "c2"; name = "Strict"; is_active = false }

abbrev pub acme : TenantEntity
acme = record {
  id = "acme-id";
  slug = "acme";
  name = "Acme";
  integration_mode = third_party;
  created_at = 0;
}

abbrev pub acme_config : TenantConfigEntity
acme_config = record {
  id = "a1";
  tenant_id = "acme-id";
  name = "Default";
  description = "";
  is_active = true;
  config = default_tenant_config none;
  created_at = 0;
  updated_at = 0;
}

unfoldable pub demo_state : SiteState demo_site
unfolding demo_site demo demo_world entries listed
demo_state = record {
  world = record (demo_world done_session) { redis = no_entries };
  authora_configs = first_config ∷ second_config ∷ [];
  tenant_configs = acme_config ∷ [];
  tenants = acme ∷ [];
  api_keys = [];
}

abbrev pub demo_catalog : Catalog
demo_catalog = record {
  known = λ id. id == "c1" || id == "c2";
  config = λ id. authora_field default_authora_config;
  current = some "c1";
}

demo_IsListed : IsListed (first_config ∷ second_config ∷ []) demo_catalog
demo_IsListed = record {
  active = λ e m. elim m [
    | inl same ↦ rw same ((λ active. refl), (λ current. refl))
    | inr (inl same) ↦ rw same (
      (λ active. absurd (cc)),
      (λ current. absurd (apart {a = "c1"} {b = "c2"} refl (some_inj current))),
    )
    | inr (inr nothing) ↦ absurd nothing
  ];
  columns = λ e m k. elim m [
    | inl same ↦ rw same refl
    | inr (inl same) ↦ rw same refl
    | inr (inr nothing) ↦ absurd nothing
  ];
  found = λ id known. elim (Bool-cases (id == "c1")) [
    | inl here ↦ (first_config, inl refl, sym ((eq_iff id "c1").0 here))
    | inr other ↦ (
      second_config,
      inr (inl refl),
      sym ((eq_iff id "c2").0 (sym (ap (λ x. x || id == "c2") other) ∙ known)),
    )
  ];
  current_known = λ id current. rw (sym (some_inj current)) refl;
}

-- the cache is empty
pub demo_Represents : Represents demo_state demo_catalog
unfolding demo_state demo_site listed entries demo
demo_Represents = record { listed = demo_IsListed; cached = λ later k. inl refl }

abbrev calls : List Call
calls =
    get AuthoraSetting.hash_time_cost
    ∷ set AuthoraSetting.hash_time_cost 7
    ∷ wait 60000
    ∷ get AuthoraSetting.hash_time_cost
    ∷ activate "c2"
    ∷ get_many (AuthoraSetting.hash_time_cost ∷ AuthoraSetting.throttle_ttl_ms ∷ [])
    ∷ []

run_refines_example : run calls demo_state ≡ replay calls demo_catalog
run_refines_example =
    run_refines calls demo_state demo_catalog demo_Represents
      (tt, (tt, (tt, (tt, (refl, (tt, tt))))))

deserialize-serialize_example :
    deserialize (serialize (number_value 3600)) (number_value 0) ≡ number_value 3600
deserialize-serialize_example = deserialize-serialize (number_value 3600) (number_value 0) refl

set_then_get_example :
    (tenant : TenantEntity) × (by_slug demo_state "acme" ≡ some tenant)
    × (get_tenant TenantSetting.password_min_length tenant.id
          (set_tenant TenantSetting.password_min_length 12 "acme" demo_state).1
        ≡ (
          ok (untyped (kind TenantSetting.password_min_length) 12),
          (set_tenant TenantSetting.password_min_length 12 "acme" demo_state).1,
        ))
unfolding demo_state demo_site demo listed first set_tenant Tenants.find_by_slug
    TenantConfigs.find_active TenantConfigs.update
set_then_get_example = set_then_get TenantSetting.password_min_length 12 "acme" demo_state refl

activation_unseen_example :
    (get_tenant TenantSetting.password_min_length acme.id
      (activate_tenant_config "acme" "a2" demo_state).1).0
    ≡ (get_tenant TenantSetting.password_min_length acme.id demo_state).0
unfolding demo_state demo_site listed first
activation_unseen_example =
    activation_unseen "acme" "a2" acme TenantSetting.password_min_length demo_state refl refl

pub demo_Unowned : IsUnowned demo_site "" demo_state.tenants demo_state.world.redis
unfolding demo_state demo_site listed first entries demo
demo_Unowned = record { no_id = (refl, tt); no_slug = refl; uncached = λ later k. refl }

unowned_refused_example :
    get_tenant TenantSetting.password_min_length ""
      (set_tenant TenantSetting.password_min_length 12 "acme" demo_state).1
    ≡ (err tenant_not_found, (set_tenant TenantSetting.password_min_length 12 "acme" demo_state).1)
unowned_refused_example =
    unowned_refused "" TenantSetting.password_min_length demo_Unowned
      (set_for_tenant TenantSetting.password_min_length 12 "acme" start)
