-- ===== src/Controllers/Account.antt =====
-- controller/account.controller.ts, dto/output/device.output.dto.ts and
-- dto/output/session.output.dto.ts. The three handlers that only say TODO are left out.
use Prim.Native.String.{len, slice}
use authora.Prelude.{ℕ, String, Bool, List, map}
use authora.Model.{TrustedDeviceEntity, RefreshTokenEntity}
use authora.Exec.{pure, or_throw, ◌>>=◌, ◌>>◌, type_error}
use authora.Account as AccountService
use authora.Site.{Site}
use authora.Http.{Handler, action, request_of}
use authora.Http.Guards.{jwt_auth_guard}
use authora.Controllers.{current_user}

pub record DeviceOutput : Type 0 where
  pub id : String
  pub name : String
  pub browser : String
  pub os : String
  pub device_type : String
  pub trusted : Bool
  pub last_ip : String
  pub first_seen_at : ℕ
  pub last_seen_at : ℕ

abbrev pub device_output : TrustedDeviceEntity → DeviceOutput
device_output e = record {
  id = e.id;
  name = e.name;
  browser = e.browser;
  os = e.os;
  device_type = e.device_type;
  trusted = e.trusted;
  last_ip = e.last_ip;
  first_seen_at = e.first_seen_at;
  last_seen_at = e.last_seen_at;
}

pub record SessionOutput : Type 0 where
  pub id : String
  pub family : String
  pub expired_at : ℕ
  pub created_at : ℕ

abbrev pub session_output : RefreshTokenEntity → SessionOutput
session_output e = record {
  id = e.id;
  family = e.family;
  expired_at = e.expired_at;
  created_at = e.created_at;
}

module _ {b : Site} where
  unfoldable pub sign_out : Handler b (Unit {0})
  unfolding jwt_auth_guard
  sign_out = do
    jwt_auth_guard
    u ← current_user
    req ← request_of
    header ← or_throw type_error req.authorization
    action (AccountService.sign_out u (slice header 7 (len header)))

  unfoldable pub password_change : String → String → String → Handler b (Unit {0})
  password_change email current_password new_password =
      action (AccountService.change_password email current_password new_password)

  unfoldable pub password_forgot : String → Handler b (Unit {0})
  password_forgot email = action (AccountService.forgot_password email)

  unfoldable pub password_reset : String → String → String → Handler b (Unit {0})
  password_reset email token new_password =
      action (AccountService.reset_password email token new_password)

  unfoldable pub list_devices : Handler b (List DeviceOutput)
  unfolding jwt_auth_guard
  list_devices = do
    jwt_auth_guard
    u ← current_user
    devices ← action (AccountService.list_devices u)
    pure (map device_output devices)

  unfoldable pub distrust_device : String → Handler b DeviceOutput
  unfolding jwt_auth_guard
  distrust_device id = do
    jwt_auth_guard
    u ← current_user
    device ← action (AccountService.distrust_device u id)
    pure (device_output device)

  unfoldable pub delete_device : String → Handler b (Unit {0})
  unfolding jwt_auth_guard
  delete_device id = do jwt_auth_guard; u ← current_user; action (AccountService.delete_device u id)

  unfoldable pub list_sessions : Handler b (List SessionOutput)
  unfolding jwt_auth_guard
  list_sessions = do
    jwt_auth_guard
    u ← current_user
    sessions ← action (AccountService.list_sessions u)
    pure (map session_output sessions)

  unfoldable pub revoke_all_sessions : Handler b (Unit {0})
  unfolding jwt_auth_guard
  revoke_all_sessions = do
    jwt_auth_guard
    u ← current_user
    action (AccountService.revoke_all_sessions u)

  unfoldable pub delete_account : String → String → Handler b (Unit {0})
  delete_account email password = action (AccountService.delete_account email password)

  unfoldable pub delete_account_validate : String → String → Handler b (Unit {0})
  delete_account_validate email token = action (AccountService.verify_delete_account email token)
