-- ===== src/Bootstrap/Start.antt =====
-- SettingsService.onApplicationBootstrap, and the first reads of Authora's settings after it.
use authora.Prelude.{false, ◌≡◌, refl, ap, some}
use authora.Config.Names.{AuthoraSetting, authora_keys, same_authora_iff, Member-authora_keys}
use authora.Config.Values.{authora_value}
use authora.Config.Defaults.{default_authora_config}
use authora.Config.Entities.{AuthoraConfigEntity}
use authora.Redis.Keys.{settings_authora_key}
use authora.Exec.{ok, ◌>>◌, >>-ok}
use authora.Sessions.{as_text}
use authora.Site.{Site, SiteState}
use authora.Settings.{serialize, reply, get_authora, refresh_authora_cache}
use authora.Settings.Cache.{get-pipeline}
use authora.Settings.Serialization.{deserialize-serialize}
use authora.Settings.Reads.{refreshed, refresh-some}
use authora.Bootstrap.{
  Server, call, bootstrap_authora_config, bootstrap_tenant_config, bootstrap_settings,
}
use authora.Bootstrap.Found.{authora_config_of}
use authora.Bootstrap.Hooks.{IsConsistent, authora_config_lem, tenant_config_lem, call-ok}

module _ {b : Site} where
  get_authora-hit :
      (k : AuthoraSetting) (s : SiteState b) (e : AuthoraConfigEntity)
      → reply s (settings_authora_key k) ≡ some (serialize (authora_value e.config k))
      → get_authora k s ≡ (ok (authora_value e.config k), s)
  unfolding get_authora
  get_authora-hit k s e hit =
      rw
        (
          hit,
          deserialize-serialize (authora_value e.config k) (authora_value default_authora_config k)
              refl,
        )
        refl

  -- On a server for one tenant whose kept promises are true of the tables, the start of
  -- SettingsService returns without an exception, an Authora configuration is active then, and
  -- each Authora setting is read as that row has it, without a change.
  pub bootstrap_settings_lem :
      (s : Server b)
      → IsConsistent s
      → (t : Server b) × (e : AuthoraConfigEntity) × (bootstrap_settings false s ≡ (ok tt, t))
        × (authora_config_of t.site ≡ some e)
        × ((k : AuthoraSetting) → get_authora k t.site ≡ (ok (authora_value e.config k), t.site))
  unfolding bootstrap_settings
  bootstrap_settings_lem s h =
      let (t1, done1, f1, h1, (e, active1)) = authora_config_lem s h in
      let (t2, done2, f2, h2, made) = tenant_config_lem t1 h1 in
      let active = f2.authora_config e active1 in
      (
        record t2 { site = refreshed t2.site e },
        e,
        >>-ok bootstrap_authora_config (bootstrap_tenant_config false >> call refresh_authora_cache)
            s done1
            (>>-ok (bootstrap_tenant_config false) (call refresh_authora_cache) t1 done2
              (call-ok refresh_authora_cache t2 (refresh-some t2.site e active))),
        active,
        (λ k. get_authora-hit k (refreshed t2.site e) e (
            ap as_text (
              get-pipeline b.platform.redis settings_authora_key (authora_value e.config)
                (λ k j. (same_authora_iff k j).0) authora_keys t2.site.world.redis t2.site.world.now
                k (Member-authora_keys k)))),
      )
