-- ===== src/Http/Throttle.antt =====
-- config/auth-throttle.guard.ts: the key under which a throttler counts a request.
use Prim.Native.String.{◌++◌}
use authora.Prelude.{String, Option, none, some, ◌==◌, if◌then◌else◌, or_else}
use authora.Exec.{Result, ok, err, unknown_throttler}
use authora.Site.{Site}
use authora.Http.{Request}

-- `value || fallback`
abbrev pub non_empty_or : String → String → String
non_empty_or value fallback = if value == "" then fallback else value

module _ (b : Site) where
  abbrev pub email_of : Option String → String
  email_of none = ""
  email_of (some raw) = b.trim (b.platform.to_lower_case raw)

  unfoldable pub generate_key : Request → String → Result String
  generate_key req throttler_name =
      let ip = or_else req.ip "" in
      let email = email_of req.email in
      if throttler_name == "identity"
      then ok ("identity:" ++ non_empty_or email ip)
      else if throttler_name == "combined"
      then ok ("combined:" ++ non_empty_or email "unknown" ++ ":" ++ ip)
      else if throttler_name == "origin"
      then ok ("origin:" ++ ip)
      else err unknown_throttler
