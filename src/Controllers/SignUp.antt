-- ===== src/Controllers/SignUp.antt =====
-- controller/sign-up.controller.ts.
use authora.Prelude.{String}
use authora.Model.{RegistrationEntity, UserEntity}
use authora.Exec.{◌>>=◌}
use authora.SignUp as SignUpService
use authora.SignUp.{SignUpInput}
use authora.Site.{Site}
use authora.Http.{Handler, action}
use authora.Controllers.{current_tenant}

module _ {b : Site} where
  unfoldable pub sign_up : SignUpInput → Handler b RegistrationEntity
  sign_up dto = do tenant ← current_tenant; action (SignUpService.sign_up dto tenant.id)

  unfoldable pub resend_verification_email : String → Handler b (Unit {0})
  resend_verification_email email = action (SignUpService.resend_verification_email email)

  unfoldable pub check_email : String → Handler b String
  check_email email = do tenant ← current_tenant; action (SignUpService.check_email email tenant.id)

  unfoldable pub verify_email : String → String → Handler b UserEntity
  verify_email email token = action (SignUpService.verify_email email token)
