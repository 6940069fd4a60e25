-- ===== src/Settings/Refinement.antt =====
-- SettingsService answers every run of calls on Authora's settings as the catalog does.
use authora.Prelude.{
  ℕ, String, true, false, ◌≡◌, refl, sym, ◌∙◌, subst, inl, inr, some, List, [], ◌∷◌, ◌==◌, eq_refl,
  Bool-cases, All,
}
use authora.Config.Names.{AuthoraSetting, same_authora}
use authora.Config.Values.{number_value}
use authora.Redis.{Redis, text}
use authora.Redis.Keys.{settings_authora_key}
use authora.Site.{Site, SiteState}
use authora.Site.AuthoraConfigs
use authora.Site.AuthoraConfigs.{stamped, activated}
use authora.Settings.{serialize, set_authora, activate_authora_config}
use authora.Settings.Catalog.{
  Call, get, get_many, set, activate, refresh, wait, Catalog, changed, after, replay, Valid,
  wait_for, perform, run,
}
use authora.Settings.Represents.{
  IsListed, Cached, Represents, active_row, active_row_listed, Simulates,
}
use authora.Settings.Reads.{
  get_refines, get_many_refines, refresh_refines, refreshed, refresh-some, refreshed-Represents,
}
use authora.Settings.Writes.{putting, set-IsListed, activate-IsListed}

set-Cached :
    (r : Redis) (t : r.Store) (a : Catalog) (k : AuthoraSetting) (v : ℕ) (id : String)
    → a.current ≡ some id
    → Cached r t a
    → Cached r
        (r.set t (settings_authora_key k) (text (serialize (number_value v))))
        (after (set k v) a)
set-Cached r t a k v id current h later j =
    rw
      (
        r.get-set t later (settings_authora_key k) (settings_authora_key j)
            (text (serialize (number_value v))),
        current,
      )
      (elim (Bool-cases (same_authora k j)) [
        | inl same ↦ inr (id, refl, rw (same, eq_refl id) refl)
        | inr other ↦ elim (h later j) [
          | inl miss ↦ inl (rw other miss)
          | inr (i, current_i, hit) ↦ inr (
            i,
            sym current ∙ current_i,
            rw other (elim (Bool-cases (i == id)) [
              | inl here ↦ rw here hit
              | inr elsewhere ↦ rw elsewhere hit
            ]),
          )
        ]
      ])

known_after : (c : Call) (a : Catalog) → (after c a).known ≡ a.known
known_after (get k) a = refl
known_after (get_many ks) a = refl
known_after (set k v) a = refl
known_after (activate id) a = refl
known_after refresh a = refl
known_after (wait n) a = refl

module _ {b : Site} where
  set_refines :
      (s : SiteState b) (a : Catalog) (k : AuthoraSetting) (v : ℕ)
      → Represents s a
      → Simulates (set k v) s a
  unfolding perform set_authora AuthoraConfigs.find_active AuthoraConfigs.update
  set_refines s a k v h = elim (active_row s a h) [
    | inl (missing, no_current) ↦ (
      s,
      rw (missing, no_current) refl,
      subst (λ o. Represents s (record a { config = changed a.config k v o })) (sym no_current) h,
    )
    | inr (e, hit, current, there) ↦ (
      (set_authora k v s).1,
      rw (hit, current) refl,
      rw hit (record {
        listed =
            rw
              (b.authora_configs.rows-update (λ x. x.id == e.id) (stamped s.world.now (putting k v))
                s.authora_configs)
              (set-IsListed s.world.now v k e.id _ a current h.listed);
        cached = set-Cached b.platform.redis s.world.redis a k v e.id current h.cached;
      }),
    )
  ]

  -- the state between the two steps of an activation
  abbrev switched : SiteState b → String → SiteState b
  switched s id = (AuthoraConfigs.activate id s).1

  switched-IsListed :
      (s : SiteState b) (a : Catalog) (id : String)
      → a.known id ≡ true
      → IsListed (b.authora_configs.rows s.authora_configs) a
      → IsListed (b.authora_configs.rows (switched s id).authora_configs) (after (activate id) a)
  unfolding AuthoraConfigs.activate
  switched-IsListed s a id known h =
      rw
        (
          b.authora_configs.rows-update (λ x. x.id == id) (stamped s.world.now (activated true)) _,
          b.authora_configs.rows-update (λ x. true) (stamped s.world.now (activated false))
              s.authora_configs,
        )
        (activate-IsListed s.world.now id _ a known h)

  activate_refines :
      (s : SiteState b) (a : Catalog) (id : String)
      → a.known id ≡ true
      → Represents s a
      → Simulates (activate id) s a
  unfolding perform activate_authora_config AuthoraConfigs.activate
  activate_refines s a id known h =
      let listed = switched-IsListed s a id known h.listed in
      let (e, there, same) = listed.found id known in
      elim (active_row_listed (switched s id) (after (activate id) a) listed) [
        | inl (missing, no_current) ↦ absurd (cc)
        | inr (e, hit, current, there) ↦ (
          refreshed (switched s id) e,
          rw (refresh-some (switched s id) e hit) refl,
          refreshed-Represents (switched s id) (after (activate id) a) e listed current there,
        )
      ]

  wait_refines : (s : SiteState b) (a : Catalog) (n : ℕ) → Represents s a → Simulates (wait n) s a
  unfolding perform
  wait_refines s a n h = ((wait_for n s).1, refl, record { listed = h.listed; cached = h.cached })

  perform_refines :
      (c : Call) (s : SiteState b) (a : Catalog)
      → Valid a.known c
      → Represents s a
      → Simulates c s a
  perform_refines (get k) s a valid h = get_refines s a k h
  perform_refines (get_many ks) s a valid h = get_many_refines s a ks h
  perform_refines (set k v) s a valid h = set_refines s a k v h
  perform_refines (activate id) s a valid h = activate_refines s a id valid h
  perform_refines refresh s a valid h = refresh_refines s a h
  perform_refines (wait n) s a valid h = wait_refines s a n h

  -- Suppose that the table of Authora's configurations and the cache stand for a catalog: a
  -- configuration is active exactly if it is current, its columns are the catalog's, and what is
  -- cached is the current configuration's value, whenever it is read. Then any run of reads of
  -- one or several settings, writes, activations of known configurations, refreshes and waits is
  -- answered as the catalog alone answers it, which knows no cache and no table.
  pub run_refines :
      (calls : List Call) (s : SiteState b) (a : Catalog)
      → Represents s a
      → All (Valid a.known) calls
      → run calls s ≡ replay calls a
  unfolding run replay
  run_refines [] s a h valid = refl
  run_refines (c ∷ calls) s a h (valid, rest) =
      let (s', answer, h') = perform_refines c s a valid h in
      rw
        (
          answer,
          run_refines calls s' (after c a) h'
              (subst (λ known. All (Valid known) calls) (sym (known_after c a)) rest),
        )
        refl
