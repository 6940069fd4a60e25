-- ===== src/Http/Guards.antt =====
-- guard/*.ts: a guard lets a request pass, with the user on it, or throws.
use authora.Prelude.{Bool, true, false, not, some, ◌==◌}
use authora.Model.{UserRole, user, admin, first_admin}
use authora.Exec.{
  gets, modify, throw_if, or_throw, ◌>>=◌, ◌>>◌, missing_authorization, expired_access_token,
  user_not_found, account_is_locked, admin_required, first_admin_required,
  expired_super_admin_token,
}
use authora.Users
use authora.Site.{Site}
use authora.Http.{Handler, action, request_of, bearer}

-- `ADMIN_ROLES.has(role)`, and `role === UserRole.FirstAdmin`
abbrev pub is_admin : UserRole → Bool
is_admin admin = true
is_admin first_admin = true
is_admin user = false

abbrev pub is_first_admin : UserRole → Bool
is_first_admin first_admin = true
is_first_admin _ = false

module _ {b : Site} where
  -- JwtAuthGuard
  unfoldable pub jwt_auth_guard : Handler b (Unit {0})
  jwt_auth_guard = do
    req ← request_of
    token ← or_throw missing_authorization (bearer req.authorization)
    sub ← gets (λ x. b.verify token x.site.world.now)
    id ← or_throw expired_access_token sub
    found ← action (Users.find_by_id id)
    u ← or_throw user_not_found found
    throw_if u.is_locked account_is_locked
    modify (λ x. record x { request = record x.request { user = some u } })

  -- AdminGuard
  unfoldable pub admin_guard : Handler b (Unit {0})
  admin_guard = do
    req ← request_of
    u ← or_throw admin_required req.user
    throw_if (not (is_admin u.role)) admin_required

  -- FirstAdminGuard
  unfoldable pub first_admin_guard : Handler b (Unit {0})
  first_admin_guard = do
    req ← request_of
    u ← or_throw first_admin_required req.user
    throw_if (not (is_first_admin u.role)) first_admin_required

  -- SuperAdminGuard: the `catch` takes the exception of its own `try` too
  unfoldable pub super_admin_guard : Handler b (Unit {0})
  super_admin_guard = do
    req ← request_of
    token ← or_throw missing_authorization (bearer req.authorization)
    verified ← gets (λ x. b.verify_super_admin token b.super_admin_secret x.site.world.now)
    role ← or_throw expired_super_admin_token verified
    throw_if (not (role == "SUPER_ADMIN")) expired_super_admin_token
