-- ===== src/Controllers.antt =====
-- controller/*.ts: the handlers behind the routes, with the guards of their decorators. Throttling
-- and the delay stand in `Http`; the validation of the bodies is left to the framework.
pub mod SignIn
pub mod Account
pub mod SignUp
pub mod MultiFactor
pub mod Admin
pub mod TenantAdmin
pub mod Password
use authora.Model.{UserEntity}
use authora.Config.Entities.{TenantEntity}
use authora.Exec.{or_throw, ◌>>=◌, type_error}
use authora.Site.{Site}
use authora.Http.{Handler, request_of}

module _ {b : Site} where
  -- `@CurrentTenant() tenant`, `@CurrentUser() user`; an absent one throws where it is used
  abbrev pub current_tenant : Handler b TenantEntity
  current_tenant = do req ← request_of; or_throw type_error req.tenant

  abbrev pub current_user : Handler b UserEntity
  current_user = do req ← request_of; or_throw type_error req.user
