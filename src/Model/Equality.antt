-- ===== src/Model/Equality.antt =====
-- The tests `===` on the enums of entity/*.ts and redis-model/*.ts.
use authora.Prelude.{ℕ, ◌≡◌, ◌↔◌, Bool, true, false, arith, eqb}
use authora.Model.{
  MfaPolicy, disabled, OneTimeTokenType, multi_factor_auth_verify, multi_factor_auth_validate,
  multi_factor_auth_disabling, account_deletion, forgot_password, magic_link, exchange,
  IntegrationMode, first_party, LockReason,
}

abbrev pub is_disabled : MfaPolicy → Bool
is_disabled disabled = true
is_disabled _ = false

abbrev pub is_first_party : IntegrationMode → Bool
is_first_party first_party = true
is_first_party _ = false

abbrev pub is_too_many_attempts : LockReason → Bool
is_too_many_attempts LockReason.too_many_attempts = true
is_too_many_attempts _ = false

-- the place of a type in its enum
abbrev pub place : OneTimeTokenType → ℕ
place multi_factor_auth_verify = 0
place multi_factor_auth_validate = 1
place multi_factor_auth_disabling = 2
place account_deletion = 3
place forgot_password = 4
place magic_link = 5
place exchange = 6

abbrev pub same_type : OneTimeTokenType → OneTimeTokenType → Bool
same_type a b = eqb (place a) (place b)

pub same_type_iff : (a b : OneTimeTokenType) → (same_type a b ≡ true) ↔ (a ≡ b)
same_type_iff a b = ground arith
