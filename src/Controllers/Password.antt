-- ===== src/Controllers/Password.antt =====
-- controller/password.controller.ts, with the settings that the validators of
-- dto/validator/password/*.decorator.ts ask for.
pub mod Refused
use Prim.Native.String.{◌++◌}
use authora.Prelude.{
  ℕ, String, Bool, true, false, Option, none, some, List, [], ◌∷◌, if◌then◌else◌, ◌==◌, not, leb,
}
use authora.Config.Names.{TenantSetting, same_tenant}
use authora.Config.Values.{SettingValue, flag_value, number_value, not_a_number, text_value}
use authora.Exec.{ok, pure, ◌>>=◌, ◌>>◌}
use authora.PasswordRules.{
  has_min_length, has_digit, has_special_char, has_lowercase, has_uppercase, no_sequential_chars,
  no_repeated_chars,
}
use authora.PasswordRules.Keyboard.{no_keyboard_sequence}
use authora.PasswordRules.Email.{no_user_info}
use authora.PasswordRules.Breach.{Response, no_common_password}
use authora.Settings.{serialize, get_tenant, get_many_tenant}
use authora.Site.{Site, Task}
use authora.Http.{Handler, task}

-- What the validators take from elsewhere: `toLowerCase` and the SHA-1 in upper-case hexadecimal, on
-- code units, and the answer of the range API for a prefix.
pub record TextServices : Type 0 where
  pub lower : List ℕ → List ℕ
  pub sha1 : List ℕ → List ℕ
  pub fetch : List ℕ → Response

-- `!!value`
abbrev pub truthy : SettingValue → Bool
truthy (flag_value on) = on
truthy (number_value n) = not (leb n 0)
truthy not_a_number = false
truthy (text_value s) = not (s == "")

-- `value.length >= minLength`, for a number; a comparison with NaN fails
abbrev pub is_long_enough : SettingValue → List ℕ → Bool
is_long_enough (number_value n) value = has_min_length n value
is_long_enough _ value = false

abbrev pub find_value : TenantSetting → List (TenantSetting × SettingValue) → Option SettingValue
find_value key [] = none
find_value key ((k, v) ∷ rest) =
    let later = find_value key rest in if same_tenant key k then some v else later

pub record PasswordRulesOutput : Type 0 where
  pub min_length : Option SettingValue
  pub require_digit : Option SettingValue
  pub require_special_char : Option SettingValue
  pub require_lowercase : Option SettingValue
  pub require_uppercase : Option SettingValue
  pub forbid_sequential_chars : Option SettingValue
  pub forbid_repeated_chars : Option SettingValue
  pub forbid_keyboard_sequence : Option SettingValue
  pub forbid_user_info : Option SettingValue
  pub forbid_common_password : Option SettingValue

pub record CheckPasswordStrengthOutput : Type 0 where
  pub valid : Bool
  pub errors : List String

-- `errors.length === 0`
abbrev pub is_empty : List String → Bool
is_empty [] = true
is_empty (e ∷ errors) = false

abbrev pub with_error : Option String → List String → List String
with_error none errors = errors
with_error (some message) errors = message ∷ errors

module _ {b : Site} where
  -- `validate` of a rule that a setting switches on; the message, if the password fails
  abbrev pub switched :
      TenantSetting → String → (Bool → List ℕ → Bool) → List ℕ → Task b (Option String)
  switched key message rule value = do
    enabled ← get_tenant key ""
    pure (if rule (truthy enabled) value then none else some message)

  -- HasMinLengthConstraint, whose message has the length that was read
  abbrev pub has_min_length_constraint : List ℕ → Task b (Option String)
  has_min_length_constraint value = do
    min_length ← get_tenant TenantSetting.password_min_length ""
    pure (
        if is_long_enough min_length value
        then none
        else some ("Password must contain at least " ++ serialize min_length ++ " characters"))

  abbrev pub constraints : TextServices → List (List ℕ → Task b (Option String))
  constraints t =
      has_min_length_constraint
      ∷ switched TenantSetting.password_require_digit "Password must contain at least one digit"
          has_digit
      ∷ switched TenantSetting.password_require_special_char
          "Password must contain at least one special character" has_special_char
      ∷ switched TenantSetting.password_require_lowercase
          "Password must contain at least one lowercase letter" has_lowercase
      ∷ switched TenantSetting.password_require_uppercase
          "Password must contain at least one uppercase letter" has_uppercase
      ∷ switched TenantSetting.password_forbid_sequential_chars
          "Password must not contain sequential characters"
          (λ enabled. no_sequential_chars enabled t.lower)
      ∷ switched TenantSetting.password_forbid_repeated_chars
          "Password must not contain repeated characters"
          (λ enabled. no_repeated_chars enabled t.lower)
      ∷ switched TenantSetting.password_forbid_keyboard_sequence
          "Password must not contain keyboard sequences"
          (λ enabled. no_keyboard_sequence enabled t.lower)
      ∷ switched TenantSetting.password_forbid_common_password
          "Password must not be a commonly used password"
          (λ enabled. no_common_password enabled t.sha1 t.fetch)
      ∷ []

  -- the loop of `checkStrength`
  unfoldable pub run_constraints :
      List (List ℕ → Task b (Option String)) → List ℕ → Task b (List String)
  run_constraints [] value = pure []
  run_constraints (validate ∷ rest) value = do
    message ← validate value
    errors ← run_constraints rest value
    pure (with_error message errors)

  -- A promise that is not awaited: what it answers, or throws, is not looked at. What a rejection
  -- does to the process is left out.
  abbrev pub unawaited : {A : Type 0} → Task b A → Task b (Unit {0})
  unawaited m s = (ok tt, (m s).1)

  -- the second half of `checkStrength`: `!result` is false for a promise
  abbrev pub check_user_info : TextServices → Option (List ℕ) → List ℕ → Task b (Unit {0})
  check_user_info t none value = pure tt
  check_user_info t (some email) value = unawaited (
      switched TenantSetting.password_forbid_user_info
        "Password must not contain parts of your email"
        (λ enabled. no_user_info enabled t.lower (some email)) value)

  unfoldable pub check_strength :
      TextServices → List ℕ → Option (List ℕ) → Handler b CheckPasswordStrengthOutput
  unfolding run_constraints
  check_strength t password email = do
    errors ← task (run_constraints (constraints t) password)
    task (check_user_info t email password)
    pure (record { valid = is_empty errors; errors = errors })

  unfoldable pub get_rules : Handler b PasswordRulesOutput
  get_rules = do
    settings ← task (
        get_many_tenant
          (TenantSetting.password_min_length ∷ TenantSetting.password_require_digit
            ∷ TenantSetting.password_require_special_char ∷ TenantSetting.password_require_lowercase
            ∷ TenantSetting.password_require_uppercase
            ∷ TenantSetting.password_forbid_sequential_chars
            ∷ TenantSetting.password_forbid_repeated_chars
            ∷ TenantSetting.password_forbid_keyboard_sequence
            ∷ TenantSetting.password_forbid_user_info
            ∷ TenantSetting.password_forbid_common_password ∷ [])
          "")
    pure (record {
      min_length = find_value TenantSetting.password_min_length settings;
      require_digit = find_value TenantSetting.password_require_digit settings;
      require_special_char = find_value TenantSetting.password_require_special_char settings;
      require_lowercase = find_value TenantSetting.password_require_lowercase settings;
      require_uppercase = find_value TenantSetting.password_require_uppercase settings;
      forbid_sequential_chars = find_value TenantSetting.password_forbid_sequential_chars settings;
      forbid_repeated_chars = find_value TenantSetting.password_forbid_repeated_chars settings;
      forbid_keyboard_sequence =
          find_value TenantSetting.password_forbid_keyboard_sequence settings;
      forbid_user_info = find_value TenantSetting.password_forbid_user_info settings;
      forbid_common_password = find_value TenantSetting.password_forbid_common_password settings;
    })
