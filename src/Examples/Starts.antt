-- ===== src/Examples/Starts.antt =====
-- Starts of a server on empty tables.
use authora.Prelude.{true, false, ◌≡◌, refl, inl, some, List, [], ◌∷◌, Member}
use authora.Config.Names.{AuthoraSetting}
use authora.Config.Values.{authora_value}
use authora.Config.Entities.{AuthoraConfigEntity, ApiKeyEntity}
use authora.Repository.Listed.{listed, first}
use authora.Exec.{ok}
use authora.Site.{SiteState}
use authora.Settings.{get_authora}
use authora.Bootstrap.{Server, bootstrap_settings}
use authora.Bootstrap.Found.{Extends, authora_config_of}
use authora.Bootstrap.Hooks.{
  Hook, admin_user, tenant_config, api_key, bootstrap, bootstrap_all, Done, IsConsistent,
  bootstrap_all_lem,
}
use authora.Bootstrap.Restart.{restarted, restart_changes_nothing}
use authora.Bootstrap.Start.{bootstrap_settings_lem}
use authora.Examples.Settings.{demo_site, demo_state, first_config, acme, acme_config}
use authora.Examples.{demo, demo_world, alice}

unfoldable empty : SiteState demo_site
unfolding demo_site demo_state listed
empty = record demo_state { authora_configs = []; tenant_configs = []; tenants = [] }

fresh : IsConsistent (restarted empty)
fresh = record {
  tenant_kept = inl refl;
  authora_config_kept = inl refl;
  tenant_config_kept = inl refl;
  api_key_kept = inl refl;
  admin_user_kept = inl refl;
}

abbrev hooks : List Hook
hooks = admin_user ∷ tenant_config ∷ api_key ∷ []

bootstrap_all_lem_example :
    (t : Server demo_site) × (bootstrap_all false hooks (restarted empty) ≡ (ok tt, t))
    × Extends empty t.site
    × IsConsistent t
    × ((h : Hook) → Member h hooks → Done h t.site)
bootstrap_all_lem_example = bootstrap_all_lem hooks (restarted empty) fresh

bootstrap_settings_lem_example :
    (t : Server demo_site) × (e : AuthoraConfigEntity) × (bootstrap_settings false (restarted empty)
      ≡ (ok tt, t))
    × (authora_config_of t.site ≡ some e)
    × ((k : AuthoraSetting) → get_authora k t.site ≡ (ok (authora_value e.config k), t.site))
bootstrap_settings_lem_example = bootstrap_settings_lem (restarted empty) fresh

-- a server that has run before
abbrev demo_key : ApiKeyEntity
demo_key = record {
  id = "k";
  tenant_id = "acme-id";
  publishable_key = "pk_live_r";
  secret_key_hash = "sk_live_r";
  is_active = true;
  created_at = 0;
}

unfoldable settled : SiteState demo_site
unfolding demo_site demo_state listed
settled = record demo_state {
  tenants = record acme { slug = "default" } ∷ [];
  api_keys = demo_key ∷ [];
}

settled-Done : (h : Hook) → Done h settled
unfolding demo_site demo_state demo demo_world listed first settled
settled-Done Hook.tenant = (record acme { slug = "default" }, refl)
settled-Done Hook.authora_config = (first_config, refl)
settled-Done tenant_config = (record acme { slug = "default" }, acme_config, refl, refl)
settled-Done api_key = (record acme { slug = "default" }, demo_key, refl, refl)
settled-Done admin_user = (alice, refl)

restart_changes_nothing_example :
    ((bootstrap false admin_user (restarted settled)).0 ≡ ok tt)
    × ((bootstrap false admin_user (restarted settled)).1.site ≡ settled)
restart_changes_nothing_example = restart_changes_nothing admin_user settled settled-Done
