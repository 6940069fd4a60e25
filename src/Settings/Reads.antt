-- ===== src/Settings/Reads.antt =====
-- The calls of SettingsService that change no configuration, against the catalog.
use authora.Prelude.{
  String, ◌≡◌, refl, sym, ◌∙◌, ap, ◌⊎◌, inl, inr, some_inj, none, some, List, [], ◌∷◌, Member,
}
use authora.Config.Names.{AuthoraSetting, authora_keys, same_authora_iff, Member-authora_keys}
use authora.Config.Values.{number_value, authora_value}
use authora.Config.Defaults.{default_authora_config}
use authora.Config.Entities.{AuthoraConfigEntity}
use authora.Redis.{text}
use authora.Redis.Keys.{settings_authora_key}
use authora.Exec.{ok, err, no_active_authora_config}
use authora.Sessions.{as_text}
use authora.Site.{Site, SiteState}
use authora.Site.AuthoraConfigs.{find_active}
use authora.Settings.{
  serialize, read_all, reply, with_redis, load_authora, or_load_authora, get_authora,
  get_many_authora, refresh_authora_cache,
}
use authora.Settings.Serialization.{deserialize-serialize, from_replies_cached, from_replies_missed}
use authora.Settings.Cache.{pipeline, get-pipeline, cache_all_lem}
use authora.Settings.Catalog.{get, get_many, refresh, values, Catalog, setting, answered, perform}
use authora.Settings.Represents.{IsListed, Represents, active_row, Simulates}

module _ {b : Site} where
  -- the state after a refresh from an active row
  abbrev pub refreshed : SiteState b → AuthoraConfigEntity → SiteState b
  refreshed s e = with_redis s (
      pipeline b.platform.redis settings_authora_key (authora_value e.config) authora_keys
        s.world.redis)

  pub refreshed-Represents :
      (s : SiteState b) (a : Catalog) (e : AuthoraConfigEntity)
      → IsListed (b.authora_configs.rows s.authora_configs) a
      → a.current ≡ some e.id
      → Member e (b.authora_configs.rows s.authora_configs)
      → Represents (refreshed s e) a
  refreshed-Represents s a e h current there = record {
    listed = h;
    cached = λ later k.
        let hit =
          get-pipeline b.platform.redis settings_authora_key (authora_value e.config)
            (λ k j. (same_authora_iff k j).0) authora_keys s.world.redis later k
            (Member-authora_keys k) in
        inr (
          e.id,
          current,
          hit ∙ ap (λ n. some (text (serialize (number_value n)))) (h.columns e there k),
        );
  }

  pub refresh-some :
      (s : SiteState b) (e : AuthoraConfigEntity)
      → b.authora_configs.find_one (λ x. x.is_active) s.authora_configs ≡ some e
      → refresh_authora_cache s ≡ (ok tt, refreshed s e)
  unfolding refresh_authora_cache find_active
  refresh-some s e hit =
      rw hit (cache_all_lem settings_authora_key (authora_value e.config) authora_keys s)

  refresh-none :
      (s : SiteState b)
      → b.authora_configs.find_one (λ x. x.is_active) s.authora_configs ≡ none
      → refresh_authora_cache s ≡ (ok tt, s)
  unfolding refresh_authora_cache find_active
  refresh-none s missing = rw missing refl

  load-some :
      (s : SiteState b) (e : AuthoraConfigEntity)
      → b.authora_configs.find_one (λ x. x.is_active) s.authora_configs ≡ some e
      → load_authora s ≡ (ok e, refreshed s e)
  unfolding find_active
  load-some s e hit = rw (hit, refresh-some s e hit) refl

  load-none :
      (s : SiteState b)
      → b.authora_configs.find_one (λ x. x.is_active) s.authora_configs ≡ none
      → load_authora s ≡ (err no_active_authora_config, s)
  unfolding find_active
  load-none s missing = rw missing refl

  -- a read that missed: all settings are cached, if there is an active row
  missed_get :
      (s : SiteState b) (a : Catalog) (k : AuthoraSetting)
      → Represents s a
      → reply s (settings_authora_key k) ≡ none
      → Simulates (get k) s a
  unfolding perform get_authora
  missed_get s a k h miss = elim (active_row s a h) [
    | inl (missing, no_current) ↦ (s, rw (miss, load-none s missing, no_current) refl, h)
    | inr (e, hit, current, there) ↦ (
      refreshed s e,
      rw (miss, load-some s e hit, current, h.listed.columns e there k) refl,
      refreshed-Represents s a e h.listed current there,
    )
  ]

  pub get_refines :
      (s : SiteState b) (a : Catalog) (k : AuthoraSetting) → Represents s a → Simulates (get k) s a
  unfolding perform get_authora
  get_refines s a k h = elim (h.cached s.world.now k) [
    | inl miss ↦ missed_get s a k h (ap as_text miss)
    | inr (id, current, hit) ↦ (
      s,
      rw
          (
            hit,
            current,
            deserialize-serialize (setting a id k) (authora_value default_authora_config k) refl,
          )
          refl,
      h,
    )
  ]

  pub refresh_refines : (s : SiteState b) (a : Catalog) → Represents s a → Simulates refresh s a
  unfolding perform
  refresh_refines s a h = elim (active_row s a h) [
    | inl (missing, no_current) ↦ (s, rw (refresh-none s missing) refl, h)
    | inr (e, hit, current, there) ↦ (
      refreshed s e,
      rw (refresh-some s e hit) refl,
      refreshed-Represents s a e h.listed current there,
    )
  ]

  -- what a key is answered by where a configuration is current
  cached_reply :
      (s : SiteState b) (a : Catalog) (id : String)
      → Represents s a
      → a.current ≡ some id
      → (k : AuthoraSetting)
      → (reply s (settings_authora_key k) ≡ none)
        ⊎ (reply s (settings_authora_key k) ≡ some (serialize (setting a id k)))
  cached_reply s a id h current k = elim (h.cached s.world.now k) [
    | inl miss ↦ inl (ap as_text miss)
    | inr (other, current', hit) ↦
        let same : other ≡ id = some_inj (sym current' ∙ current) in
        inr (ap as_text hit ∙ ap (λ i. some (serialize (setting a i k))) same)
  ]

  no_reply :
      (s : SiteState b) (a : Catalog)
      → Represents s a
      → a.current ≡ none
      → (k : AuthoraSetting) → reply s (settings_authora_key k) ≡ none
  no_reply s a h no_current k = elim (h.cached s.world.now k) [
    | inl miss ↦ ap as_text miss
    | inr (other, current, hit) ↦ absurd (cc)
  ]

  pub get_many_refines :
      (s : SiteState b) (a : Catalog) (ks : List AuthoraSetting)
      → Represents s a
      → Simulates (get_many ks) s a
  unfolding perform get_many_authora
  get_many_refines s a [] h = (s, refl, h)
  get_many_refines s a (k ∷ ks) h = elim (active_row s a h) [
    | inl (missing, no_current) ↦
        let missed =
          from_replies_missed (authora_value default_authora_config)
            (λ k'. reply s (settings_authora_key k')) k ks (no_reply s a h no_current k) in
        (
          s,
          ap (λ o. answered values (or_load_authora (k ∷ ks) o s)) missed
              ∙ rw (load-none s missing, no_current) refl,
          h,
        )
    | inr (e, hit, current, there) ↦
        let same : authora_value e.config ≡ setting a e.id =
          λ i k'. number_value (h.listed.columns e there k' i) in
        elim (from_replies_cached (authora_value default_authora_config) (setting a e.id)
          (λ k'. reply s (settings_authora_key k')) (λ k'. refl) (cached_reply s a e.id h current)
          (k ∷ ks)) [
            | inl missed ↦ (
              refreshed s e,
              ap (λ o. answered values (or_load_authora (k ∷ ks) o s)) missed
                  ∙ rw (load-some s e hit, current)
                      (ap (λ f. (values (read_all f (k ∷ ks)), refreshed s e)) same),
              refreshed-Represents s a e h.listed current there,
            )
            | inr read ↦ (
              s,
              ap (λ o. answered values (or_load_authora (k ∷ ks) o s)) read ∙ rw current refl,
              h,
            )
          ]
  ]
