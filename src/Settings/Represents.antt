-- ===== src/Settings/Represents.antt =====
-- How the tables and Redis stand for a catalog of configurations.
use authora.Prelude.{
  ℕ, String, true, false, ◌≡◌, sym, ◌∙◌, ap, ◌↔◌, ◌⊎◌, inl, inr, none, some, List, Option-cases,
  Member, All-Member,
}
use authora.Config.Names.{AuthoraSetting}
use authora.Config.Values.{authora_field}
use authora.Config.Entities.{AuthoraConfigEntity}
use authora.Redis.{Redis, text}
use authora.Redis.Keys.{settings_authora_key}
use authora.Site.{Site, SiteState}
use authora.Settings.{serialize}
use authora.Settings.Catalog.{Call, Catalog, setting, respond, after, perform}

-- What the table is to the catalog.
pub record IsListed (rows : List AuthoraConfigEntity) (a : Catalog) : Type 0 where
  pub active :
      (e : AuthoraConfigEntity) → Member e rows → (e.is_active ≡ true) ↔ (a.current ≡ some e.id)
  pub columns :
      (e : AuthoraConfigEntity)
      → Member e rows
      → (k : AuthoraSetting) → authora_field e.config k ≡ a.config e.id k
  pub found :
      (id : String) → a.known id ≡ true → (e : AuthoraConfigEntity) × Member e rows × (e.id ≡ id)
  pub current_known : (id : String) → a.current ≡ some id → a.known id ≡ true

-- A key that is cached, whenever it is read, has the current configuration's value.
abbrev pub Cached : (r : Redis) → r.Store → Catalog → Type 0
Cached r t a =
    (later : ℕ) (k : AuthoraSetting)
    → (r.get t later (settings_authora_key k) ≡ none)
      ⊎ ((id : String) × (a.current ≡ some id)
          × (r.get t later (settings_authora_key k) ≡ some (text (serialize (setting a id k)))))

module _ {b : Site} where
  pub record Represents (s : SiteState b) (a : Catalog) : Type 0 where
    pub listed : IsListed (b.authora_configs.rows s.authora_configs) a
    pub cached : Cached b.platform.redis s.world.redis a

  -- The active row is the current configuration's, and there is none if there is no current one.
  pub active_row_listed :
      (s : SiteState b) (a : Catalog)
      → IsListed (b.authora_configs.rows s.authora_configs) a
      → ((b.authora_configs.find_one (λ e. e.is_active) s.authora_configs ≡ none)
          × (a.current ≡ none))
        ⊎ ((e : AuthoraConfigEntity) × (b.authora_configs.find_one
                (λ e. e.is_active)
                s.authora_configs
              ≡ some e)
            × (a.current ≡ some e.id)
            × Member e (b.authora_configs.rows s.authora_configs))
  active_row_listed s a h =
      elim (Option-cases (b.authora_configs.find_one (λ e. e.is_active) s.authora_configs)) [
        | inr (e, hit) ↦
            let (active, there) =
              b.authora_configs.find_one-some (λ e. e.is_active) s.authora_configs e hit in
            inr (e, hit, (h.active e there).0 active, there)
        | inl missing ↦ elim (Option-cases a.current) [
          | inl no_current ↦ inl (missing, no_current)
          | inr (id, current) ↦
              let (e, there, same) = h.found id (h.current_known id current) in
              let active = (h.active e there).1 (current ∙ ap some (sym same)) in
              let inactive =
                All-Member (λ x. x.is_active ≡ false) (b.authora_configs.rows s.authora_configs)
                  (b.authora_configs.find_one-none (λ e. e.is_active) s.authora_configs missing)
                  there in
              absurd (cc)
        ]
      ]

  pub active_row :
      (s : SiteState b) (a : Catalog)
      → Represents s a
      → ((b.authora_configs.find_one (λ e. e.is_active) s.authora_configs ≡ none)
          × (a.current ≡ none))
        ⊎ ((e : AuthoraConfigEntity) × (b.authora_configs.find_one
                (λ e. e.is_active)
                s.authora_configs
              ≡ some e)
            × (a.current ≡ some e.id)
            × Member e (b.authora_configs.rows s.authora_configs))
  active_row s a h = active_row_listed s a h.listed

  -- the service answers a call as the catalog does, and still stands for it
  abbrev pub Simulates : Call → SiteState b → Catalog → Type 0
  Simulates c s a =
      (s' : SiteState b) × (perform c s ≡ (respond c a, s')) × Represents s' (after c a)
