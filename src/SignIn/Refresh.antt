-- ===== src/SignIn/Refresh.antt =====
-- service/sign-in.service.ts: refreshing and revoking the tokens of a signed-in user.
use authora.Prelude.{String, not, Option, none, some, ◌==◌, if◌then◌else◌}
use authora.Model.{UserEntity, RefreshTokenEntity}
use authora.Exec.{
  or_throw, pure, throw_if, ◌>>=◌, ◌>>◌, missing_refresh_token, invalid_access_token,
  invalid_refresh_token, access_token_mismatch,
}
use authora.World.{Platform, Action, time, read_without_tenant}
use authora.Users
use authora.RefreshTokens
use authora.SignIn.{SignInOutput}

-- `!value` on a string that may be undefined: the empty string counts as missing
abbrev pub given : Option String → Option String
given none = none
given (some s) = if s == "" then none else some s

module _ {p : Platform} where
  -- the user whom a possibly expired access token names
  unfoldable pub user_of_token : String → Action p UserEntity
  unfolding Users.find_by_id
  user_of_token access_token = do
    user_id ← or_throw invalid_access_token (given (p.decode access_token))
    found ← Users.find_by_id user_id
    or_throw invalid_refresh_token found

  unfoldable pub refresh_token : Option String → Option String → Action p SignInOutput
  unfolding user_of_token RefreshTokens.find_by_user_including_revoked RefreshTokens.verify
      RefreshTokens.rotate
  refresh_token access_token clear_refresh_token = do
    access ← or_throw missing_refresh_token (given access_token)
    clear ← or_throw missing_refresh_token (given clear_refresh_token)
    u ← user_of_token access
    found ← RefreshTokens.find_by_user_including_revoked u clear
    matched ← or_throw invalid_refresh_token found
    throw_if (not (matched.jwt == access)) access_token_mismatch
    is_valid ← RefreshTokens.verify matched clear u
    throw_if (not is_valid) invalid_refresh_token
    now ← time
    let new_access = p.sign u.id u.email now
    new_refresh ← RefreshTokens.rotate matched u new_access
    config ← read_without_tenant
    pure (record {
      access_token = new_access;
      expires_in = config.jwt_access_token_expiration_sec;
      refresh_token = new_refresh;
    })

  -- the active token's family goes if the clear token is the active token's
  abbrev pub revoke_active : UserEntity → String → Option RefreshTokenEntity → Action p (Unit {0})
  revoke_active u clear none = pure tt
  revoke_active u clear (some active) = do
    is_valid ← RefreshTokens.verify active clear u
    if not is_valid then pure tt else RefreshTokens.revoke_family active.family

  unfoldable pub revoke_token : Option String → Option String → Action p (Unit {0})
  unfolding user_of_token RefreshTokens.find_active_for_user RefreshTokens.verify
      RefreshTokens.revoke_family
  revoke_token access_token clear_refresh_token = do
    access ← or_throw missing_refresh_token (given access_token)
    clear ← or_throw missing_refresh_token (given clear_refresh_token)
    u ← user_of_token access
    active ← RefreshTokens.find_active_for_user u
    revoke_active u clear active
