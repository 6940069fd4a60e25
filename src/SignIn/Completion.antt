-- ===== src/SignIn/Completion.antt =====
-- sign-in.service.ts: a completed session is traded for tokens (`exchange`, `token`,
-- `exchangeSession`).
use authora.Prelude.{String, true, not, ◌&&◌, or_else}
use authora.Model.{AuthSession, UserEntity}
use authora.Model.Equality.{is_disabled}
use authora.Exec.{
  pure, throw_if, or_throw, ◌>>=◌, ◌>>◌, invalid_credentials, session_not_found,
  primary_auth_required, mfa_required,
}
use authora.World.{Platform, Action}
use authora.Users
use authora.Sessions
use authora.Tokens
use authora.SignIn.{SignInOutput, get_session, issue_tokens}

module _ {p : Platform} where
  -- the guards that `exchange` and `exchangeSession` share, up to the user
  unfoldable pub completed_user : AuthSession → Action p UserEntity
  unfolding Users.find_by_id
  completed_user s = do
    throw_if (not s.primary_auth_verified) primary_auth_required
    throw_if (not (is_disabled s.mfa_policy) && not s.mfa_verified && not s.device_trusted)
        mfa_required
    throw_if s.exchanged session_not_found
    user_id ← or_throw invalid_credentials s.user_id
    found ← Users.find_by_id user_id
    or_throw invalid_credentials found

  unfoldable pub exchange : String → Action p String
  unfolding get_session completed_user Tokens.create_exchange_token Sessions.update
  exchange session_id = do
    s ← get_session session_id
    u ← completed_user s
    exchange_token ← Tokens.create_exchange_token u.id s.id
    Sessions.update (record s { exchanged = true })
    pure exchange_token

  -- `consumedSession.userId!` is defined, since `consumeExchangeToken` returned
  unfoldable pub token : String → Action p SignInOutput
  unfolding Tokens.consume_exchange_token Users.find_by_id issue_tokens
  token exchange_token = do
    s ← Tokens.consume_exchange_token exchange_token
    found ← Users.find_by_id (or_else s.user_id "")
    u ← or_throw invalid_credentials found
    issue_tokens u s.tenant_id s.remember_me

  unfoldable pub exchange_session : String → Action p SignInOutput
  unfolding get_session completed_user Sessions.delete issue_tokens
  exchange_session session_id = do
    s ← get_session session_id
    u ← completed_user s
    Sessions.delete s
    issue_tokens u s.tenant_id s.remember_me
