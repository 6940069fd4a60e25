-- ===== src/Controllers/MultiFactor.antt =====
-- controller/multi-factor-auth.controller.ts.
use authora.Prelude.{String, List}
use authora.MultiFactor as MultiFactorService
use authora.MultiFactor.{SetupOutput}
use authora.Site.{Site}
use authora.Http.{Handler, action}

module _ {b : Site} where
  unfoldable pub setup : String → String → Handler b SetupOutput
  setup email password = action (MultiFactorService.setup email password)

  unfoldable pub verify : String → String → String → Handler b (List String)
  verify email password code = action (MultiFactorService.verify email password code)

  unfoldable pub disable : String → String → String → Handler b (Unit {0})
  disable email password code = action (MultiFactorService.disable email password code)
