-- ===== src/Http.antt =====
-- A request on its way through the middleware, the guards and a handler: what they read of it, what
-- they hang on it, and the cookies of the response.
pub mod Guards
pub mod Middleware
pub mod Throttle
pub mod Delay
pub mod Admission
use Prim.Native.String.{len, slice}
use text.Mathlib.Text.{starts_with}
use authora.Prelude.{ℕ, String, Bool, Option, none, some, List, [], ◌∷◌, if◌then◌else◌}
use authora.Model.{UserEntity}
use authora.Config.Entities.{TenantEntity, ApiKeyEntity}
use authora.Exec.{Exec, Result, gets, modify}
use authora.World.{Action}
use authora.Site.{Site, SiteState, Task, lift}

pub record Request : Type 0 where
  -- `headers.authorization`, `headers['user-agent']`, `headers['x-authora-key']`
  pub authorization : Option String
  pub user_agent : Option String
  pub authora_key : Option String
  pub ip : Option String
  pub cookies : String → Option String
  -- `body.email`, where it is a text
  pub email : Option String
  -- what the guards and the middleware set
  pub user : Option UserEntity
  pub tenant : Option TenantEntity
  pub api_key : Option ApiKeyEntity

-- `res.cookie(name, value, options)` and `res.clearCookie(name, options)`; every cookie of the
-- controllers is `secure`, `sameSite: 'strict'` and has the path '/'
pub data SetCookie : Type 0 where
  cookie : (name value : String) (http_only : Bool) (max_age : Option ℕ) → SetCookie
  clear_cookie : (name : String) → SetCookie

pub record Exchange (b : Site) : Type 0 where
  pub site : SiteState b
  pub request : Request
  pub response : List SetCookie

abbrev pub Handler : Site → Type 0 → Type 0
Handler b A = Exec (Exchange b) A

module _ {b : Site} where
  abbrev pub on_site : {A : Type 0} → Exchange b → Result A × SiteState b → Result A × Exchange b
  on_site x (r, s) = (r, record x { site = s })

  -- a call of a service
  abbrev pub task : {A : Type 0} → Task b A → Handler b A
  task m x = on_site x (m x.site)

  abbrev pub action : {A : Type 0} → Action b.platform A → Handler b A
  action m = task (lift m)

  abbrev pub request_of : Handler b Request
  request_of = gets (λ x. x.request)

  abbrev pub set_cookie : SetCookie → Handler b (Unit {0})
  set_cookie c = modify (λ x. record x { response = c ∷ x.response })

-- `authHeader?.startsWith('Bearer ') ? authHeader.slice(7) : undefined`
abbrev pub bearer : Option String → Option String
bearer none = none
bearer (some header) =
    if starts_with header "Bearer " then some (slice header 7 (len header)) else none
