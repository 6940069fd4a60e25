-- ===== src/Examples/Requests.antt =====
-- Requests: to the sign-in, to the settings of a tenant, and on routes behind the guards.
use authora.Prelude.{
  ℕ, ◌*◌, ◌≤◌, String, true, false, ◌≡◌, refl, ◌⊎◌, none, some, [], ◌∷◌, arith, ◌==◌,
}
use authora.Model.{UserEntity, admin}
use authora.Config.Names.{AuthoraSetting, TenantSetting}
use authora.Config.Values.{untyped, kind}
use authora.Config.Entities.{ApiKeyEntity}
use authora.Repository.Listed.{listed, first}
use authora.Redis.Entries.{entries}
use authora.Exec.{ok, err, mfa_required, tenant_not_found}
use authora.SignIn.{SignInOutput}
use authora.SignIn.Completion.{exchange_session}
use authora.Site.{SiteState}
use authora.Settings.{get_tenant}
use authora.Http.{Request, Exchange, bearer}
use authora.Http.Guards.{jwt_auth_guard}
use authora.Http.Admission.{jwt_auth_guard_sound}
use authora.Http.Delay.{unit, random_between, get_delay_ms}
use authora.Http.Delay.Bounds.{delay_within}
use authora.Controllers.SignIn.{resolve_next_step}
use authora.Controllers.SignIn.Announced.{IsSpared, announced_complete}
use authora.Controllers.TenantAdmin.{update_setting}
use authora.Controllers.TenantAdmin.Foreign.{any_admin_sets}
use authora.Controllers.Password.{TextServices, check_strength, get_rules}
use authora.Controllers.Password.Refused.{password_endpoints_refused}
use authora.PasswordRules.Breach.{refused}
use authora.Settings.{set_tenant}
use authora.Settings.UnownedReads.{start, set_for_tenant}
use authora.Users
use authora.Examples.{demo, demo_world, done_session, alice}
use authora.Examples.Settings.{
  demo_site, demo_state, demo_catalog, demo_Represents, demo_Unowned, acme, acme_config,
}

announced_complete_example :
    ((out : SignInOutput) × ((exchange_session "sid" (demo_world done_session)).0 ≡ ok out)
      × (out.access_token ≡ demo.sign alice.id alice.email (demo_world done_session).now))
    ⊎ (IsSpared done_session
        × (exchange_session "sid" (demo_world done_session)
            ≡ (err mfa_required, demo_world done_session)))
unfolding demo demo_world listed first entries resolve_next_step
announced_complete_example =
    announced_complete (demo_world done_session) "sid" done_session alice refl refl refl
      (refl, refl) refl

-- an administrator of the tenant "t"
abbrev boss : UserEntity
boss = record alice { role = admin }

abbrev request : Request
request = record {
  authorization = some "Bearer alice";
  user_agent = none;
  authora_key = some "pk";
  ip = some "::1";
  cookies = λ name. none;
  email = none;
  user = none;
  tenant = some acme;
  api_key = none;
}

unfoldable demo_exchange : Exchange demo_site
unfolding demo_site demo_state demo demo_world listed
demo_exchange = record {
  site = record demo_state { world = record demo_state.world { users = boss ∷ [] } };
  request = request;
  response = [];
}

any_admin_sets_example :
    (x' : Exchange demo_site) × (update_setting TenantSetting.password_min_length 4 demo_exchange
      ≡ (ok tt, x'))
    × (get_tenant TenantSetting.password_min_length acme.id x'.site
        ≡ (ok (untyped (kind TenantSetting.password_min_length) 4), x'.site))
unfolding demo_exchange demo_site demo_state demo demo_world listed first
any_admin_sets_example =
    any_admin_sets TenantSetting.password_min_length 4 demo_exchange "alice" "alice" boss acme
      acme_config refl refl refl refl refl refl refl refl

jwt_auth_guard_sound_example :
    (token : String) × (id : String) × (u : UserEntity) × (bearer
        demo_exchange.request.authorization
      ≡ some token)
    × (demo_site.verify token demo_exchange.site.world.now ≡ some id)
    × (demo_site.platform.users.find_one (λ v. v.id == id) demo_exchange.site.world.users ≡ some u)
    × (u.is_locked ≡ false)
    × ((jwt_auth_guard demo_exchange).1
        ≡ record demo_exchange { request = record demo_exchange.request { user = some u } })
unfolding demo_exchange demo_site demo_state demo demo_world listed first jwt_auth_guard
    Users.find_by_id
jwt_auth_guard_sound_example =
    jwt_auth_guard_sound demo_exchange (jwt_auth_guard demo_exchange).1 refl

-- a client of the default tenant
abbrev key : ApiKeyEntity
key = record {
  id = "k";
  tenant_id = "acme-id";
  publishable_key = "pk";
  secret_key_hash = "sk";
  is_active = true;
  created_at = 0;
}

unfoldable client_exchange : Exchange demo_site
unfolding demo_exchange demo_site demo_state listed
client_exchange = record demo_exchange {
  site = record demo_state { tenants = record acme { slug = "default" } ∷ []; api_keys = key ∷ [] };
}

delay_within_example :
    (d : ℕ) × (t : SiteState demo_site) × (get_delay_ms 5 demo_state ≡ (ok (some d), t))
    × (demo_catalog.config "c1" AuthoraSetting.endpoint_delay_min_ms * unit ≤ d)
    × (d ≤ demo_catalog.config "c1" AuthoraSetting.endpoint_delay_max_ms * unit)
delay_within_example =
    delay_within 5 demo_state demo_catalog "c1" demo_Represents refl (omega arith) (omega arith)

abbrev services : TextServices
services = record { lower = λ s. s; sha1 = λ s. s; fetch = λ prefix. refused }

-- after a setting was changed
unfoldable anonymous_exchange : Exchange demo_site
unfolding set_tenant
anonymous_exchange = record {
  site = (set_tenant TenantSetting.password_min_length 12 "acme" demo_state).1;
  request = request;
  response = [];
}

password_endpoints_refused_example :
    (check_strength services (113 ∷ 119 ∷ 101 ∷ 114 ∷ []) none anonymous_exchange
      ≡ (err tenant_not_found, anonymous_exchange))
    × (get_rules anonymous_exchange ≡ (err tenant_not_found, anonymous_exchange))
unfolding anonymous_exchange
password_endpoints_refused_example =
    password_endpoints_refused services (113 ∷ 119 ∷ 101 ∷ 114 ∷ []) none anonymous_exchange
      demo_Unowned (set_for_tenant TenantSetting.password_min_length 12 "acme" start)

-- With the default settings the largest draw gives the largest delay itself.
largest_delay : random_between 9007199254740991 200 400 ≡ 400 * unit
unfolding random_between
largest_delay = refl
