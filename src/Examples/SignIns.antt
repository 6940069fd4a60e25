-- ===== src/Examples/SignIns.antt =====
-- sign-in.service.ts, run in the example deployment.
use authora.Prelude.{
  ◌≡◌, refl, true, false, none, some, [], ◌∷◌, arith, ◌==◌, eq_iff, All, inl, inr,
}
use authora.Model.{magic_link, UserEntity, AuthSession, RefreshTokenEntity}
use authora.Exec.{
  ok, err, mfa_required, session_not_found, invalid_token, token_reuse_detected, tenant_not_found,
}
use authora.World.{World}
use authora.Hashing.{hash}
use authora.Repository.Listed.{listed, first, sort_desc, place}
use authora.Redis.{text}
use authora.Redis.Keys.{ott_key}
use authora.Redis.Entries.{put, entries, set_entry, incr_entry, expire_entry}
use authora.Users
use authora.Attempts
use authora.Devices
use authora.Mfa
use authora.Sessions
use authora.Sessions.{stored}
use authora.Sessions.Storage.{IsKeyed}
use authora.Tokens
use authora.Tokens.{text_at}
use authora.Passwords
use authora.Passwords.{check, current, PasswordVerifyResult}
use authora.RefreshTokens.{first_match, verify, rotate}
use authora.RefreshTokens
use authora.RefreshTokens.Active.{IsRotated, is_alive_in, token_rows}
use authora.SignIn.{
  SignInOutput, PasswordInput, get_session, issue_tokens, refuse_if, resolve_mfa_status,
  password_accepted, primary_auth_password, primary_auth_magic_link,
  primary_auth_magic_link_validate,
}
use authora.SignIn.Completion.{exchange, exchange_session, completed_user, token}
use authora.SignIn.Totp.{TotpInput, totp_accepted, mfa_auth_totp_validate}
use authora.SignIn.Refresh.{user_of_token, refresh_token}
use authora.SignIn.Gate.{
  IsComplete, IsUserOf, exchange_session_sound, exchange_session_complete, second_factor_missing,
}
use authora.SignIn.Exchange.{exchange_used_up}
use authora.SignIn.ExchangeToken.{exchange_then_token}
use authora.SignIn.MagicLink.{primary_auth_magic_link_validate_sound}
use authora.SignIn.Takeover.{magic_link_takeover}
use authora.SignIn.Password.{
  primary_auth_password_sound, IsVerifiedFor, loaded_passwords, is_cooling,
}
use authora.SignIn.SecondFactor.{
  mfa_auth_totp_validate_sound, HasValidCode, IsRaised, is_mfa_cooling,
}
use authora.SignIn.Rotation.{refresh_token_sound, refresh_token_reused, IsNamedBy, IsAccepted}
use authora.SignIn.Unavailable.{password_unavailable}
use authora.Config.{TenantConfig}
use authora.World.{Platform, World}
use authora.Examples.{
  demo, demo_world, random_name, alice, bob, alice_token, entry_until, done_session, half_session,
  new_session,
}

abbrev tokens : SignInOutput
tokens = record { access_token = "alice"; expires_in = 900; refresh_token = "r" }

abbrev alices_input : PasswordInput
alices_input = record {
  email = "alice@example.org";
  password = "secret";
  remember_me = none;
  ip = "::1";
  user_agent = "ua";
  device_fingerprint = none;
}

abbrev wrong_input : PasswordInput
wrong_input = record alices_input { password = "wrong" }

abbrev alices_code : TotpInput
alices_code = record { code = "123456"; trust_this_device = none; ip = "::1"; user_agent = "ua" }

-- Alice's session after her password, on a device that was not known
abbrev first_session : AuthSession
first_session = record new_session {
  user_id = some "alice";
  primary_auth_verified = true;
  device_fingerprint = some "1r";
  mfa_setup = true;
}

abbrev revoked_token : RefreshTokenEntity
revoked_token = record alice_token { revoked = true }

unfoldable reused_world : World demo
unfolding demo demo_world listed
reused_world = record (demo_world done_session) { refresh_tokens = revoked_token ∷ [] }

abbrev locked_alice : UserEntity
locked_alice = record alice { is_locked = true }

unfoldable locked_world : World demo
unfolding demo demo_world listed
locked_world = record (demo_world new_session) { users = locked_alice ∷ [] }

-- Alice, nine wrong passwords later
done_session-IsComplete : IsComplete done_session
done_session-IsComplete = record {
  first_factor = refl;
  second_factor = inr (inl refl);
  unused = refl;
}

done_session-IsKeyed : IsKeyed (demo_world done_session)
unfolding demo demo_world entries
done_session-IsKeyed later id = ground (arith, eq_iff "sid" id)

-- a session for which Alice asked a magic link
abbrev linked_session : AuthSession
linked_session = record new_session { user_id = some "alice" }

unfoldable linked_world : World demo
unfolding demo demo_world entries
linked_world = record (demo_world linked_session) {
  redis =
      put (demo_world linked_session).redis (ott_key "alice" magic_link)
        (entry_until (text "link") 900000);
}

-- after the link was followed on a device that was not known
abbrev opened_session : AuthSession
opened_session = record linked_session {
  primary_auth_verified = true;
  device_fingerprint = some "r";
  mfa_setup = true;
}

exchange_session_sound_example :
    (s : AuthSession) × (u : UserEntity) × (stored (demo_world done_session) "sid" ≡ some s)
    × IsComplete s
    × IsUserOf (demo_world done_session) s u
    × (tokens.access_token ≡ demo.sign u.id u.email (demo_world done_session).now)
    × (stored ((exchange_session "sid" (demo_world done_session)).1) s.id ≡ none)
unfolding demo demo_world listed first sort_desc place entries set_entry incr_entry expire_entry
    random_name exchange_session get_session completed_user issue_tokens RefreshTokens.create
    Sessions.delete hash Users.find_by_id
exchange_session_sound_example =
    exchange_session_sound (demo_world done_session)
      ((exchange_session "sid" (demo_world done_session)).1) "sid" tokens refl

exchange_session_complete_example :
    (out : SignInOutput) × ((exchange_session "sid" (demo_world done_session)).0 ≡ ok out)
    × (out.access_token ≡ demo.sign alice.id alice.email (demo_world done_session).now)
    × (stored (exchange_session "sid" (demo_world done_session)).1 "sid" ≡ none)
unfolding demo demo_world listed first sort_desc place entries set_entry incr_entry expire_entry
    random_name exchange_session get_session completed_user issue_tokens RefreshTokens.create
    Sessions.delete hash Users.find_by_id
exchange_session_complete_example =
    exchange_session_complete (demo_world done_session) "sid" done_session alice refl refl
      done_session-IsComplete (refl, refl)

second_factor_missing_example :
    (exchange_session "sid" (demo_world half_session)
      ≡ (err mfa_required, (demo_world half_session)))
    × (exchange "sid" (demo_world half_session) ≡ (err mfa_required, (demo_world half_session)))
unfolding demo demo_world listed first sort_desc place entries set_entry incr_entry expire_entry
    random_name
second_factor_missing_example =
    second_factor_missing (demo_world half_session) "sid" half_session refl refl refl
      (λ e. ground arith) refl refl

exchange_used_up_example :
    (exchange "sid" ((exchange "sid" (demo_world done_session)).1)
      ≡ (err session_not_found, ((exchange "sid" (demo_world done_session)).1)))
    × (exchange_session "sid" ((exchange "sid" (demo_world done_session)).1)
        ≡ (err session_not_found, ((exchange "sid" (demo_world done_session)).1)))
unfolding demo demo_world listed first sort_desc place entries set_entry incr_entry expire_entry
    random_name exchange get_session completed_user Tokens.create_exchange_token Sessions.update
exchange_used_up_example =
    exchange_used_up (demo_world done_session) ((exchange "sid" (demo_world done_session)).1) "sid"
      "r" done_session-IsKeyed refl

exchange_then_token_example :
    (s : AuthSession) × (u : UserEntity) × (out : SignInOutput) × (stored
        (demo_world done_session)
        "sid"
      ≡ some s)
    × IsUserOf (demo_world done_session) s u
    × ((token "r" ((exchange "sid" (demo_world done_session)).1)).0 ≡ ok out)
    × (out.access_token ≡ demo.sign u.id u.email (demo_world done_session).now)
    × ((token "r" (token "r" ((exchange "sid" (demo_world done_session)).1)).1).0
        ≡ err invalid_token)
unfolding demo demo_world listed first sort_desc place entries set_entry incr_entry expire_entry
    random_name exchange get_session completed_user Tokens.create_exchange_token Sessions.update
exchange_then_token_example =
    exchange_then_token (demo_world done_session) ((exchange "sid" (demo_world done_session)).1)
      "sid" "r" done_session-IsKeyed (ground arith) refl

magic_link_takeover_example :
    (out : SignInOutput) × ((exchange_session "sid"
        (primary_auth_magic_link "sid" "bob@example.org" none (demo_world done_session)).1).0
      ≡ ok out)
    × (out.access_token ≡ demo.sign bob.id bob.email (demo_world done_session).now)
unfolding demo demo_world listed first sort_desc place entries set_entry incr_entry expire_entry
    random_name
magic_link_takeover_example =
    magic_link_takeover (demo_world done_session) "sid" "bob@example.org" none done_session bob refl
      refl done_session-IsComplete (ground arith) refl refl

primary_auth_password_sound_example :
    (s : AuthSession) × (u : UserEntity) × (config : TenantConfig) × (stored
        (demo_world new_session)
        "sid"
      ≡ some s)
    × (demo.no_tenant ≡ some config)
    × (demo.users.find_one
          (λ r. r.email == demo.to_lower_case alices_input.email)
          (demo_world new_session).users
        ≡ some u)
    × (u.is_locked ≡ false)
    × (is_cooling config (demo_world new_session) u ≡ false)
    × (check demo
          (demo_world new_session).now
          u
          (loaded_passwords (demo_world new_session) u)
          alices_input.password
        ≡ ok PasswordVerifyResult.valid)
    × IsVerifiedFor (demo.tenant s.tenant_id).mfa_policy u s first_session
    × (stored ((primary_auth_password "sid" alices_input (demo_world new_session)).1) s.id
        ≡ some first_session)
unfolding demo demo_world listed first sort_desc place entries set_entry incr_entry expire_entry
    random_name primary_auth_password get_session Users.find_by_email
    Users.is_password_temporarily_locked Users.is_cooldown_expired Passwords.passwords_of
    Passwords.verify_user_password check current refuse_if password_accepted
    Users.reset_password_attempts Attempts.create Devices.register_or_update Devices.register_new
    Devices.create hash resolve_mfa_status Mfa.find_for_user Devices.is_trusted Sessions.update
primary_auth_password_sound_example =
    primary_auth_password_sound (demo_world new_session)
      ((primary_auth_password "sid" alices_input (demo_world new_session)).1) "sid" alices_input
      first_session refl

mfa_auth_totp_validate_sound_example :
    (s : AuthSession) × (u : UserEntity) × (config : TenantConfig) × (stored
        (demo_world half_session)
        "sid"
      ≡ some s)
    × (demo.no_tenant ≡ some config)
    × (s.primary_auth_verified ≡ true)
    × IsUserOf (demo_world half_session) s u
    × (u.is_locked ≡ false)
    × (is_mfa_cooling config (demo_world half_session) u ≡ false)
    × HasValidCode (demo_world half_session) u alices_code.code
    × IsRaised s done_session
    × (stored ((mfa_auth_totp_validate "sid" alices_code (demo_world half_session)).1) s.id
        ≡ some done_session)
unfolding demo demo_world listed first sort_desc place entries set_entry incr_entry expire_entry
    random_name mfa_auth_totp_validate get_session Users.find_by_id Users.is_mfa_temporarily_locked
    Users.is_cooldown_expired refuse_if Mfa.validate_totp_for_user Mfa.find_verified_for_user
    totp_accepted Users.reset_mfa_attempts Attempts.create Sessions.update
mfa_auth_totp_validate_sound_example =
    mfa_auth_totp_validate_sound (demo_world half_session)
      ((mfa_auth_totp_validate "sid" alices_code (demo_world half_session)).1) "sid" alices_code
      done_session refl

refresh_token_sound_example :
    (u : UserEntity) × (t : RefreshTokenEntity) × IsNamedBy (demo_world done_session) "alice" u
    × IsAccepted (demo_world done_session) u "alice" "clear" t
    × (tokens.access_token ≡ demo.sign u.id u.email (demo_world done_session).now)
    × IsRotated t
        (demo_world done_session)
        ((refresh_token (some "alice") (some "clear") (demo_world done_session)).1)
unfolding demo demo_world listed first sort_desc place entries set_entry incr_entry expire_entry
    random_name refresh_token user_of_token RefreshTokens.find_by_user_including_revoked first_match
    verify rotate hash Users.find_by_id
refresh_token_sound_example =
    refresh_token_sound (demo_world done_session)
      ((refresh_token (some "alice") (some "clear") (demo_world done_session)).1) "alice" "clear"
      tokens refl

refresh_token_reused_example :
    let r = refresh_token (some "alice") (some "clear") reused_world in
    (r.0 ≡ err token_reuse_detected)
    × All (λ s. is_alive_in revoked_token.family s ≡ false) (token_rows r.1)
unfolding demo demo_world listed first sort_desc place entries set_entry incr_entry expire_entry
    random_name reused_world first_match
refresh_token_reused_example =
    refresh_token_reused reused_world "alice" "clear" alice revoked_token refl refl (refl, refl)
      refl refl refl

-- the deployment where the settings of the tenant '' cannot be read
unfoldable bare : Platform
unfolding demo
bare = record demo { no_tenant = none }

unfoldable bare_world : AuthSession → World bare
unfolding bare demo demo_world
bare_world s = record {
  now = 1000;
  draws = 0;
  users = (demo_world s).users;
  passwords = (demo_world s).passwords;
  refresh_tokens = (demo_world s).refresh_tokens;
  registrations = (demo_world s).registrations;
  devices = (demo_world s).devices;
  mfas = (demo_world s).mfas;
  attempts = (demo_world s).attempts;
  redis = (demo_world s).redis;
  outbox = [];
}

password_unavailable_example :
    primary_auth_password "sid" alices_input (bare_world new_session)
    ≡ (err tenant_not_found, bare_world new_session)
unfolding bare bare_world demo demo_world listed first entries
password_unavailable_example =
    password_unavailable (bare_world new_session) "sid" alices_input new_session alice refl refl
      refl refl refl

primary_auth_magic_link_validate_sound_example :
    (s : AuthSession) × (u : UserEntity) × (stored linked_world "sid" ≡ some s)
    × IsUserOf linked_world s u
    × (text_at linked_world (ott_key u.id magic_link) ≡ some (demo.sha256 "link"))
    × IsVerifiedFor (demo.tenant s.tenant_id).mfa_policy u s opened_session
    × (stored ((primary_auth_magic_link_validate "sid" "link" "::1" "ua" none linked_world).1) s.id
        ≡ some opened_session)
unfolding demo demo_world listed first sort_desc place entries set_entry incr_entry expire_entry
    random_name linked_world primary_auth_magic_link_validate get_session Users.find_by_id
    Tokens.consume Devices.register_or_update Devices.register_new Devices.create hash
    resolve_mfa_status Mfa.find_for_user Devices.is_trusted Sessions.update
primary_auth_magic_link_validate_sound_example =
    primary_auth_magic_link_validate_sound linked_world
      ((primary_auth_magic_link_validate "sid" "link" "::1" "ua" none linked_world).1) "sid" "link"
      "::1" "ua" none opened_session refl
