-- ===== src/Bootstrap/Hooks.antt =====
-- The hooks of a server that serves one tenant, in any order and however often.
use authora.Prelude.{
  Bool, false, ◌≡◌, refl, ◌∙◌, ap, ◌⊎◌, inl, inr, Option, none, some, List, [], ◌∷◌, Member,
}
use authora.Exec.{Result, ok, pure, ◌>>◌, >>-ok}
use authora.Site.{Site, SiteState, Task}
use authora.Bootstrap.{
  Server, Boot, Promises, once, settle, call, with_site, bootstrap_tenant, bootstrap_authora_config,
  bootstrap_tenant_config, bootstrap_api_key, bootstrap_admin_user, create_default_tenant,
  create_default_authora_config, create_default_tenant_config, create_default_api_key,
  create_admin_user,
}
use authora.Bootstrap.Found.{
  Extends, Extends-refl, Extends-trans, HasTenant, HasAuthoraConfig, HasTenantConfig, HasApiKey,
  HasAdmin, create_default_tenant_lem, create_default_authora_config_lem,
}
use authora.Bootstrap.Made.{
  create_default_tenant_config_lem, create_default_api_key_lem, create_admin_user_lem,
}

pub data Hook : Type 0 where
  tenant authora_config tenant_config api_key admin_user : Hook

-- a promise that is there was kept
abbrev pub Kept : Option (Result (Unit {0})) → Type 0 → Type 0
Kept o P = (o ≡ none) ⊎ ((o ≡ some (ok tt)) × P)

Kept_map : {o : Option (Result (Unit {0}))} {P Q : Type 0} → (P → Q) → Kept o P → Kept o Q
Kept_map f (inl fresh) = inl fresh
Kept_map f (inr (kept, p)) = inr (kept, f p)

module _ {b : Site} where
  abbrev pub bootstrap : Bool → Hook → Boot b
  bootstrap multi_tenant tenant = bootstrap_tenant multi_tenant
  bootstrap multi_tenant authora_config = bootstrap_authora_config
  bootstrap multi_tenant tenant_config = bootstrap_tenant_config multi_tenant
  bootstrap multi_tenant api_key = bootstrap_api_key multi_tenant
  bootstrap multi_tenant admin_user = bootstrap_admin_user multi_tenant

  -- the hooks one after the other
  unfoldable pub bootstrap_all : Bool → List Hook → Boot b
  bootstrap_all multi_tenant [] = pure tt
  bootstrap_all multi_tenant (h ∷ hooks) = do
    bootstrap multi_tenant h
    bootstrap_all multi_tenant hooks

  -- what is found after a hook
  abbrev pub Done : Hook → SiteState b → Type 0
  Done tenant s = HasTenant s
  Done authora_config s = HasAuthoraConfig s
  Done tenant_config s = HasTenantConfig s
  Done api_key s = HasApiKey s
  Done admin_user s = HasAdmin s

  Done-mono : {s t : SiteState b} (h : Hook) → Extends s t → Done h s → Done h t
  Done-mono tenant f (x, there) = (x, f.tenant x there)
  Done-mono authora_config f (e, there) = (e, f.authora_config e there)
  Done-mono tenant_config f (x, e, d, there) = (x, e, f.tenant x d, f.tenant_config x e d there)
  Done-mono api_key f (x, k, d, there) = (x, k, f.tenant x d, f.api_key x k d there)
  Done-mono admin_user f (u, there) = (u, f.admin u there)

  pub record IsConsistent (s : Server b) : Type 0 where
    pub tenant_kept : Kept s.promises.tenant (HasTenant s.site)
    pub authora_config_kept : Kept s.promises.authora_config (HasAuthoraConfig s.site)
    pub tenant_config_kept : Kept s.promises.tenant_config (HasTenantConfig s.site)
    pub api_key_kept : Kept s.promises.api_key (HasApiKey s.site)
    pub admin_user_kept : Kept s.promises.admin_user (HasAdmin s.site)

  IsConsistent-Extends :
      (s : Server b) (t : SiteState b)
      → Extends s.site t
      → IsConsistent s
      → IsConsistent (record s { site = t })
  IsConsistent-Extends s t f h = record {
    tenant_kept = Kept_map (Done-mono tenant f) h.tenant_kept;
    authora_config_kept = Kept_map (Done-mono authora_config f) h.authora_config_kept;
    tenant_config_kept = Kept_map (Done-mono tenant_config f) h.tenant_config_kept;
    api_key_kept = Kept_map (Done-mono api_key f) h.api_key_kept;
    admin_user_kept = Kept_map (Done-mono admin_user f) h.admin_user_kept;
  }

  -- a hook returns, keeps what was found, and what it is for is found then
  abbrev pub Succeeds : Boot b → (SiteState b → Type 0) → Server b → Type 0
  Succeeds m P s =
      (t : Server b) × (m s ≡ (ok tt, t)) × Extends s.site t.site × IsConsistent t × P t.site

  once_fresh :
      (keep : Result (Unit {0}) → Promises → Promises) (body : Boot b)
      {o : Option (Result (Unit {0}))} {s t : Server b}
      → o ≡ none
      → body s ≡ (ok tt, t)
      → once o keep body s ≡ (ok tt, record t { promises = keep (ok tt) t.promises })
  once_fresh keep body {o} {s} {t} fresh done =
      ap (λ x. once x keep body s) fresh ∙ ap (settle keep) done

  -- a call that returns
  pub call-ok :
      (m : Task b (Unit {0})) (s : Server b) {t : SiteState b}
      → m s.site ≡ (ok tt, t)
      → call m s ≡ (ok tt, record s { site = t })
  call-ok m s done = ap (with_site s) done

  tenant_lem : (s : Server b) → IsConsistent s → Succeeds (bootstrap_tenant false) HasTenant s
  unfolding bootstrap_tenant
  tenant_lem s h = elim h.tenant_kept [
    | inr (kept, there) ↦ (s, rw kept refl, Extends-refl s.site, h, there)
    | inl fresh ↦
        let (t, done, f, made) = create_default_tenant_lem s.site in
        let h' = IsConsistent-Extends s t f h in
        (
          record { site = t; promises = record s.promises { tenant = some (ok tt) } },
          once_fresh _ _ fresh (call-ok create_default_tenant s done),
          f,
          record {
            tenant_kept = inr (refl, made);
            authora_config_kept = h'.authora_config_kept;
            tenant_config_kept = h'.tenant_config_kept;
            api_key_kept = h'.api_key_kept;
            admin_user_kept = h'.admin_user_kept;
          },
          made,
        )
  ]

  pub authora_config_lem :
      (s : Server b) → IsConsistent s → Succeeds bootstrap_authora_config HasAuthoraConfig s
  unfolding bootstrap_authora_config
  authora_config_lem s h = elim h.authora_config_kept [
    | inr (kept, there) ↦ (s, rw kept refl, Extends-refl s.site, h, there)
    | inl fresh ↦
        let (t, done, f, made) = create_default_authora_config_lem s.site in
        let h' = IsConsistent-Extends s t f h in
        (
          record { site = t; promises = record s.promises { authora_config = some (ok tt) } },
          once_fresh _ _ fresh (call-ok create_default_authora_config s done),
          f,
          record {
            tenant_kept = h'.tenant_kept;
            authora_config_kept = inr (refl, made);
            tenant_config_kept = h'.tenant_config_kept;
            api_key_kept = h'.api_key_kept;
            admin_user_kept = h'.admin_user_kept;
          },
          made,
        )
  ]

  pub tenant_config_lem :
      (s : Server b) → IsConsistent s → Succeeds (bootstrap_tenant_config false) HasTenantConfig s
  unfolding bootstrap_tenant_config
  tenant_config_lem s h = elim h.tenant_config_kept [
    | inr (kept, there) ↦ (s, rw kept refl, Extends-refl s.site, h, there)
    | inl fresh ↦
        let (t1, done1, f1, h1, there) = tenant_lem s h in
        let (t, done, f, made) = create_default_tenant_config_lem t1.site there in
        let h' = IsConsistent-Extends t1 t f h1 in
        (
          record { site = t; promises = record t1.promises { tenant_config = some (ok tt) } },
          once_fresh _ _ fresh (
              >>-ok (bootstrap_tenant false) (call create_default_tenant_config) s done1
                (call-ok create_default_tenant_config t1 done)),
          Extends-trans f1 f,
          record {
            tenant_kept = h'.tenant_kept;
            authora_config_kept = h'.authora_config_kept;
            tenant_config_kept = inr (refl, made);
            api_key_kept = h'.api_key_kept;
            admin_user_kept = h'.admin_user_kept;
          },
          made,
        )
  ]

  api_key_lem : (s : Server b) → IsConsistent s → Succeeds (bootstrap_api_key false) HasApiKey s
  unfolding bootstrap_api_key
  api_key_lem s h = elim h.api_key_kept [
    | inr (kept, there) ↦ (s, rw kept refl, Extends-refl s.site, h, there)
    | inl fresh ↦
        let (t1, done1, f1, h1, there) = tenant_lem s h in
        let (t, done, f, made) = create_default_api_key_lem t1.site there in
        let h' = IsConsistent-Extends t1 t f h1 in
        (
          record { site = t; promises = record t1.promises { api_key = some (ok tt) } },
          once_fresh _ _ fresh (
              >>-ok (bootstrap_tenant false) (call create_default_api_key) s done1
                (call-ok create_default_api_key t1 done)),
          Extends-trans f1 f,
          record {
            tenant_kept = h'.tenant_kept;
            authora_config_kept = h'.authora_config_kept;
            tenant_config_kept = h'.tenant_config_kept;
            api_key_kept = inr (refl, made);
            admin_user_kept = h'.admin_user_kept;
          },
          made,
        )
  ]

  admin_user_lem :
      (s : Server b) → IsConsistent s → Succeeds (bootstrap_admin_user false) HasAdmin s
  unfolding bootstrap_admin_user
  admin_user_lem s h = elim h.admin_user_kept [
    | inr (kept, there) ↦ (s, rw kept refl, Extends-refl s.site, h, there)
    | inl fresh ↦
        let (t1, done1, f1, h1, (x, there)) = tenant_lem s h in
        let (t2, done2, f2, h2, config) = authora_config_lem t1 h1 in
        let (t, done, f, made) = create_admin_user_lem t2.site (x, f2.tenant x there) in
        let h' = IsConsistent-Extends t2 t f h2 in
        (
          record { site = t; promises = record t2.promises { admin_user = some (ok tt) } },
          once_fresh _ _ fresh (
              >>-ok (bootstrap_tenant false) (bootstrap_authora_config >> call create_admin_user) s
                done1
                (>>-ok bootstrap_authora_config (call create_admin_user) t1 done2
                  (call-ok create_admin_user t2 done))),
          Extends-trans f1 (Extends-trans f2 f),
          record {
            tenant_kept = h'.tenant_kept;
            authora_config_kept = h'.authora_config_kept;
            tenant_config_kept = h'.tenant_config_kept;
            api_key_kept = h'.api_key_kept;
            admin_user_kept = inr (refl, made);
          },
          made,
        )
  ]

  hook_lem : (h : Hook) (s : Server b) → IsConsistent s → Succeeds (bootstrap false h) (Done h) s
  hook_lem tenant = tenant_lem
  hook_lem authora_config = authora_config_lem
  hook_lem tenant_config = tenant_config_lem
  hook_lem api_key = api_key_lem
  hook_lem admin_user = admin_user_lem

  -- On a server for one tenant whose kept promises are true of the tables, the bootstrap hooks
  -- return without an exception in whichever order and however often they run. What was found
  -- before is still found, and after each hook that ran its row is found: the default tenant, the
  -- active configurations, the API key, the administrator.
  pub bootstrap_all_lem :
      (hooks : List Hook) (s : Server b)
      → IsConsistent s
      → Succeeds (bootstrap_all false hooks) (λ t. (h : Hook) → Member h hooks → Done h t) s
  unfolding bootstrap_all
  bootstrap_all_lem [] s c = (s, refl, Extends-refl s.site, c, λ h m. absurd m)
  bootstrap_all_lem (h ∷ hooks) s c =
      let (t1, done1, f1, c1, made) = hook_lem h s c in
      let (t, done, f, c', all) = bootstrap_all_lem hooks t1 c1 in
      (
        t,
        rw (done1, done) refl,
        Extends-trans f1 f,
        c',
        (λ i m. elim m [ inl same ↦ rw same (Done-mono h f made) | inr later ↦ all i later ]),
      )
