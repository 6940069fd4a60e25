-- ===== src/Examples/Rules.antt =====
-- multi-factor-auth.service.ts, run in the example deployment, and three password rules.
use authora.Prelude.{
  ℕ, ◌≡◌, refl, String, true, false, not, ◌&&◌, some, List, [], ◌∷◌, ◌==◌, All, select, length,
  Member, ◌↔◌,
}
use authora.Model.{UserEntity, MultiFactorAuthEntity, magic_link}
use authora.Exec.{err, invalid_token}
use authora.Hashing.{hash}
use authora.Repository.Listed.{listed, first, sort_desc, place}
use authora.Redis.Entries.{entries, set_entry, incr_entry, expire_entry}
use authora.Users
use authora.Passwords
use authora.Passwords.{check, current}
use authora.RefreshTokens
use authora.RefreshTokens.{active_for}
use authora.RefreshTokens.Active.{token_rows}
use authora.Tokens
use authora.Tokens.{consume, del_keys}
use authora.Mfa
use authora.Account.{revoke_everything}
use authora.Tokens.Revocation.{IsSpent}
use authora.MultiFactor.{confirmed_user, verify, disable}
use authora.MultiFactor.Management.{IsConfirmed, is_pending, verify_sound, disable_sound}
use authora.PasswordRules.{no_repeated_chars, no_sequential_chars}
use authora.PasswordRules.Runs.{
  has_triple, has_sequence_of_four, no_repeated_chars_lem, no_sequential_chars_lem,
}
use authora.PasswordRules.Keyboard.{keyboard_rows, no_keyboard_sequence}
use authora.PasswordRules.Keyboard.Windows.{IsTyped, no_keyboard_sequence_lem}
use authora.Examples.{demo, demo_world, random_name, done_session}

abbrev ten_codes : List String
ten_codes = "0-" ∷ "1-" ∷ "2-" ∷ "3-" ∷ "4-" ∷ "5-" ∷ "6-" ∷ "7-" ∷ "8-" ∷ "9-" ∷ []

-- a text that has no capitals
abbrev same : List ℕ → List ℕ
same cs = cs

-- "aaa", "abcd"
abbrev aaa : List ℕ
aaa = 97 ∷ 97 ∷ 97 ∷ []

abbrev abcd : List ℕ
abcd = 97 ∷ 98 ∷ 99 ∷ 100 ∷ []

verify_sound_example :
    (u : UserEntity) × (m : MultiFactorAuthEntity) × IsConfirmed
      (demo_world done_session)
      "alice@example.org"
      "secret"
      u
    × (demo.mfas.find_one (λ r. r.user_id == u.id) (demo_world done_session).mfas ≡ some m)
    × (demo.totp_verify m.secret "123456" (demo_world done_session).now ≡ true)
    × (length ten_codes ≡ 10)
    × All
        (λ r. is_pending m.id r ≡ false)
        (demo.mfas.rows
          ((verify "alice@example.org" "secret" "123456" (demo_world done_session)).1).mfas)
unfolding demo demo_world listed first sort_desc place entries set_entry incr_entry expire_entry
    random_name verify Mfa.verify_for_user Mfa.find_for_user Mfa.enable Mfa.generate Mfa.hash_all
    Mfa.recovery_code hash confirmed_user Users.find_by_email Passwords.passwords_of
    Passwords.verify_user_password check current
verify_sound_example =
    verify_sound (demo_world done_session)
      ((verify "alice@example.org" "secret" "123456" (demo_world done_session)).1)
      "alice@example.org" "secret" "123456" ten_codes refl

disable_sound_example :
    (u : UserEntity) × (m : MultiFactorAuthEntity) × IsConfirmed
      (demo_world done_session)
      "alice@example.org"
      "secret"
      u
    × (demo.mfas.find_one (λ r. r.user_id == u.id && r.is_verified) (demo_world done_session).mfas
        ≡ some m)
    × (demo.totp_verify m.secret "123456" (demo_world done_session).now ≡ true)
    × All
        (λ r. (r.id == m.id) ≡ false)
        (demo.mfas.rows
          ((disable "alice@example.org" "secret" "123456" (demo_world done_session)).1).mfas)
    × (select
          (active_for u.id)
          (token_rows ((disable "alice@example.org" "secret" "123456" (demo_world done_session)).1))
        ≡ [])
    × (consume u.id "later" magic_link
          ((disable "alice@example.org" "secret" "123456" (demo_world done_session)).1)
        ≡ (
          err invalid_token,
          ((disable "alice@example.org" "secret" "123456" (demo_world done_session)).1),
        ))
    × IsSpent
        (demo_world done_session)
        ((disable "alice@example.org" "secret" "123456" (demo_world done_session)).1)
        u.id
        "code"
unfolding demo demo_world listed first sort_desc place entries set_entry incr_entry expire_entry
    random_name disable Mfa.disable_for_user Mfa.find_verified_for_user revoke_everything
    RefreshTokens.revoke_all_for_user Tokens.revoke_all_for_user del_keys confirmed_user
    Users.find_by_email Passwords.passwords_of Passwords.verify_user_password check current
disable_sound_example =
    disable_sound (demo_world done_session)
      ((disable "alice@example.org" "secret" "123456" (demo_world done_session)).1)
      "alice@example.org" "secret" "123456" "later" "code" magic_link refl

no_repeated_chars_lem_example : no_repeated_chars true same aaa ≡ not (has_triple (same aaa))
no_repeated_chars_lem_example = no_repeated_chars_lem same aaa

no_sequential_chars_lem_example :
    no_sequential_chars true same abcd ≡ not (has_sequence_of_four (same abcd))
no_sequential_chars_lem_example = no_sequential_chars_lem same abcd

-- "qwer"
abbrev qwer : List ℕ
qwer = 113 ∷ 119 ∷ 101 ∷ 114 ∷ []

no_keyboard_sequence_lem_example :
    (no_keyboard_sequence true same qwer ≡ false)
    ↔ ((row : List ℕ) × Member row keyboard_rows × IsTyped row (same qwer))
no_keyboard_sequence_lem_example = no_keyboard_sequence_lem same qwer
