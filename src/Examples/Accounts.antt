-- ===== src/Examples/Accounts.antt =====
-- account.service.ts and sign-up.service.ts, run in the example deployment.
use authora.Prelude.{◌≡◌, ◌≤◌, ◌↔◌, refl, true, false, some, [], ◌∷◌, ◌==◌}
use authora.Model.{
  UserEntity, RegistrationEntity, PasswordEntity, OneTimeTokenType, magic_link, forgot_password,
  account_deletion,
}
use authora.Exec.{ok, err, device_not_found, invalid_token, email_already_used}
use authora.Hashing.{hash}
use authora.Redis.Keys.{ott_key}
use authora.Repository.Listed.{listed, first, sort_desc, place}
use authora.Redis.Entries.{entries, set_entry, incr_entry, expire_entry}
use authora.Users
use authora.Registrations
use authora.Passwords
use authora.Passwords.{
  check, current, already_used, change_user_password, reset_user_password, valid,
}
use authora.Passwords.Current.{IsValidBy, check-eq-valid_iff}
use authora.RefreshTokens.{active_for, create, handle_token_reuse}
use authora.RefreshTokens
use authora.Tokens.{text_at, consume, del_keys}
use authora.Tokens
use authora.Account.{
  revoke_everything, unlock_after_reset, change_password, reset_password, verify_delete_account,
  distrust_device, delete_device,
}
use authora.Config.{TenantConfig}
use authora.Tokens.Revocation.{IsSpent}
use authora.Account.Known.{IsKnown}
use authora.Account.Recovery.{IsRenewed, loaded, change_password_sound, reset_password_sound}
use authora.Account.Ownership.{IsForgotten, others_device, verify_delete_account_sound}
use authora.SignUp.{SignUpInput, sign_up, verify_email}
use authora.SignUp.Verification.{IsVerified, is_taken, verify_email_sound, sign_up-eq-err_iff}
use authora.Examples.{
  apart, demo, demo_world, random_name, alice, bobs_device, alice_password, done_session,
}

abbrev carol : UserEntity
carol = record alice { id = "r"; email = "carol@example.org"; created_at = 1000 }

abbrev alices_registration : SignUpInput
alices_registration = record { email = "alice@example.org"; password = "x" }

reset_password_sound_example :
    (u : UserEntity) × (demo.users.find_one
        (λ r. r.email == demo.to_lower_case "alice@example.org")
        (demo_world done_session).users
      ≡ some u)
    × (text_at (demo_world done_session) (ott_key u.id OneTimeTokenType.forgot_password)
        ≡ some (demo.sha256 "reset"))
    × (already_used demo (loaded (demo_world done_session) u) "fresh" ≡ false)
    × IsRenewed
        (demo_world done_session)
        u
        "fresh"
        ((reset_password "alice@example.org" "reset" "fresh" (demo_world done_session)).1)
    × (consume u.id "later" forgot_password
          ((reset_password "alice@example.org" "reset" "fresh" (demo_world done_session)).1)
        ≡ (
          err invalid_token,
          ((reset_password "alice@example.org" "reset" "fresh" (demo_world done_session)).1),
        ))
    × IsSpent
        (demo_world done_session)
        ((reset_password "alice@example.org" "reset" "fresh" (demo_world done_session)).1)
        u.id
        "code"
unfolding demo demo_world listed first sort_desc place entries set_entry incr_entry expire_entry
    random_name reset_password Passwords.passwords_of already_used Passwords.reset_user_password
    Passwords.revoke Passwords.create Passwords.create_from_hash hash unlock_after_reset
    revoke_everything RefreshTokens.revoke_all_for_user Tokens.revoke_all_for_user
    Users.find_by_email Tokens.consume del_keys
reset_password_sound_example =
    reset_password_sound (demo_world done_session)
      ((reset_password "alice@example.org" "reset" "fresh" (demo_world done_session)).1)
      "alice@example.org" "reset" "fresh" "later" "code" forgot_password refl

change_password_sound_example :
    (u : UserEntity) × (demo.users.find_one
        (λ r. r.email == demo.to_lower_case "alice@example.org")
        (demo_world done_session).users
      ≡ some u)
    × IsKnown
        (check demo (demo_world done_session).now u (loaded (demo_world done_session) u) "secret")
    × (already_used demo (loaded (demo_world done_session) u) "fresh" ≡ false)
    × IsRenewed
        (demo_world done_session)
        u
        "fresh"
        ((change_password "alice@example.org" "secret" "fresh" (demo_world done_session)).1)
    × (consume u.id "later" magic_link
          ((change_password "alice@example.org" "secret" "fresh" (demo_world done_session)).1)
        ≡ (
          err invalid_token,
          ((change_password "alice@example.org" "secret" "fresh" (demo_world done_session)).1),
        ))
    × IsSpent
        (demo_world done_session)
        ((change_password "alice@example.org" "secret" "fresh" (demo_world done_session)).1)
        u.id
        "code"
unfolding demo demo_world listed first sort_desc place entries set_entry incr_entry expire_entry
    random_name change_password check current Passwords.verify_user_password Passwords.passwords_of
    already_used Passwords.change_user_password Passwords.revoke Passwords.create
    Passwords.create_from_hash hash revoke_everything RefreshTokens.revoke_all_for_user
    Tokens.revoke_all_for_user Users.find_by_email Tokens.consume del_keys
change_password_sound_example =
    change_password_sound (demo_world done_session)
      ((change_password "alice@example.org" "secret" "fresh" (demo_world done_session)).1)
      "alice@example.org" "secret" "fresh" "later" "code" magic_link refl

verify_delete_account_sound_example :
    (u : UserEntity) × (demo.users.find_one
        (λ r. r.email == demo.to_lower_case "alice@example.org")
        (demo_world done_session).users
      ≡ some u)
    × (text_at (demo_world done_session) (ott_key u.id account_deletion)
        ≡ some (demo.sha256 "goodbye"))
    × IsForgotten u
        ((verify_delete_account "alice@example.org" "goodbye" (demo_world done_session)).1)
unfolding demo demo_world listed first sort_desc place entries set_entry incr_entry expire_entry
    random_name verify_delete_account Users.delete Users.find_by_email Tokens.consume del_keys
verify_delete_account_sound_example =
    verify_delete_account_sound (demo_world done_session)
      ((verify_delete_account "alice@example.org" "goodbye" (demo_world done_session)).1)
      "alice@example.org" "goodbye" refl

others_device_example :
    (distrust_device alice "d" (demo_world done_session)
      ≡ (err device_not_found, (demo_world done_session)))
    × (delete_device alice "d" (demo_world done_session)
        ≡ (err device_not_found, (demo_world done_session)))
unfolding demo demo_world listed first sort_desc place entries set_entry incr_entry expire_entry
    random_name
others_device_example =
    others_device (demo_world done_session) alice "d" bobs_device refl (apart refl)

verify_email_sound_example :
    (r : RegistrationEntity) × (demo.registrations.find_one
        (λ s. s.email == demo.to_lower_case "carol@example.org")
        (demo_world done_session).registrations
      ≡ some r)
    × ((demo_world done_session).now ≤ r.email_verification_token_expires_at)
    × (demo.argon2_verify r.email_verification_token_hash "token" ≡ true)
    × (carol.email ≡ demo.to_lower_case "carol@example.org")
    × IsVerified
        (demo_world done_session)
        r
        carol
        ((verify_email "carol@example.org" "token" (demo_world done_session)).1)
unfolding demo demo_world listed first sort_desc place entries set_entry incr_entry expire_entry
    random_name verify_email Registrations.find_by_email Users.create Passwords.create_from_hash
    Registrations.delete
verify_email_sound_example =
    verify_email_sound (demo_world done_session)
      ((verify_email "carol@example.org" "token" (demo_world done_session)).1) "carol@example.org"
      "token" carol refl

sign_up-eq-err_iff_example :
    (sign_up alices_registration "t" (demo_world done_session)
      ≡ (err email_already_used, (demo_world done_session)))
    ↔ (is_taken (demo_world done_session) (demo.to_lower_case alices_registration.email) "t" ≡ true)
unfolding demo demo_world listed first sort_desc place entries set_entry incr_entry expire_entry
    random_name
sign_up-eq-err_iff_example = sign_up-eq-err_iff (demo_world done_session) alices_registration "t"

check-eq-valid_iff_example : (check demo 1000 alice (alice_password ∷ []) "secret" ≡ ok valid) ↔ (
    (r : PasswordEntity) × (config : TenantConfig) × IsValidBy demo 1000
      (alice_password ∷ [])
      "secret"
      r
      config)
unfolding demo demo_world listed first sort_desc place entries set_entry incr_entry expire_entry
    random_name
check-eq-valid_iff_example = check-eq-valid_iff demo 1000 alice (alice_password ∷ []) "secret"
