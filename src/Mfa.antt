-- ===== src/Mfa.antt =====
-- service/entity-service/multi-factor-auth-entity.service.ts. TOTP codes are checked by a library.
use Prim.Native.String.{slice, ◌++◌}
use authora.Prelude.{
  ℕ, zero, suc, ◌+◌, ◌%◌, String, true, false, not, ◌&&◌, Option, none, some, List, [], ◌∷◌,
  if◌then◌else◌, ◌==◌,
}
use authora.Model.{MultiFactorAuthEntity, UserEntity}
use authora.Exec.{
  pure, throw, gets, modify, throw_if, ◌>>=◌, ◌>>◌, mfa_already_enabled, mfa_not_found,
  mfa_code_invalid,
}
use authora.World.{Platform, Action, draw, time}
use authora.Hashing.{hash}

pub data TotpValidateResult : Type 0 where
  valid invalid not_found : TotpValidateResult

abbrev pub recovery_code_count : ℕ
recovery_code_count = 10

-- the alphabet of recovery codes
abbrev pub recovery_chars : String
recovery_chars = "0123456789ABCDEFGHIJKLMNOPQRSTUVWXYZ"

abbrev pub recovery_char : ℕ → String
recovery_char b = slice recovery_chars (b % 36) (b % 36 + 1)

-- `Array.from(bytes, (b) => chars[b % chars.length]).join('')`
abbrev pub join_chars : List ℕ → String
join_chars [] = ""
join_chars (b ∷ bs) = recovery_char b ++ join_chars bs

-- `subarray(0, n)`, `subarray(n)`
abbrev pub take : ℕ → List ℕ → List ℕ
take zero bs = []
take (suc n) [] = []
take (suc n) (b ∷ bs) = b ∷ take n bs

abbrev pub drop : ℕ → List ℕ → List ℕ
drop zero bs = bs
drop (suc n) [] = []
drop (suc n) (b ∷ bs) = drop n bs

unfoldable pub recovery_code : List ℕ → String
recovery_code bytes = join_chars (take 4 bytes) ++ "-" ++ join_chars (take 4 (drop 4 bytes))

abbrev pub verified_with : List String → MultiFactorAuthEntity → MultiFactorAuthEntity
verified_with hashes m = record m { is_verified = true; recovery_code_hashes = hashes }

module _ {p : Platform} where
  -- `findOne({ where: { user: { id } } })`, and with `isVerified: true`
  unfoldable pub find_for_user : UserEntity → Action p (Option MultiFactorAuthEntity)
  find_for_user u = gets (λ w. p.mfas.find_one (λ m. m.user_id == u.id) w.mfas)

  unfoldable pub find_verified_for_user : UserEntity → Action p (Option MultiFactorAuthEntity)
  find_verified_for_user u =
      gets (λ w. p.mfas.find_one (λ m. m.user_id == u.id && m.is_verified) w.mfas)

  abbrev pub remove_mfa : MultiFactorAuthEntity → Action p (Unit {0})
  remove_mfa m = modify (λ w. record w { mfas = p.mfas.remove (λ r. r.id == m.id) w.mfas })

  -- throws if MFA is enabled, and drops a setup that was not finished
  abbrev pub replace : Option MultiFactorAuthEntity → Action p (Unit {0})
  replace none = pure tt
  replace (some m) = do throw_if m.is_verified mfa_already_enabled; remove_mfa m

  unfoldable pub create : UserEntity → Action p MultiFactorAuthEntity
  unfolding find_for_user
  create u = do
    existing ← find_for_user u
    replace existing
    secret ← draw
    n ← draw
    now ← time
    let created : MultiFactorAuthEntity = record {
      id = p.uuid n;
      user_id = u.id;
      secret = p.generate_secret secret u.email;
      is_verified = false;
      recovery_code_hashes = [];
      created_at = now;
    }
    modify (λ w. record w { mfas = p.mfas.insert created w.mfas })
    pure created

  -- the hashes of the recovery codes, in order
  unfoldable pub hash_all : List String → Action p (List String)
  unfolding hash
  hash_all [] = pure []
  hash_all (c ∷ cs) = do h ← hash c; hs ← hash_all cs; pure (h ∷ hs)

  -- `Array.from({ length })` of the given recovery codes, one draw each
  unfoldable pub generate : ℕ → (ℕ → String) → Action p (List String)
  generate zero code_of = pure []
  generate (suc n) code_of = do i ← draw; rest ← generate n code_of; pure (code_of i ∷ rest)

  -- once the code is checked: ten new recovery codes, of which the hashes are stored
  unfoldable pub enable : MultiFactorAuthEntity → Action p (List String)
  unfolding generate hash_all
  enable m = do
    codes ← generate recovery_code_count (λ i. recovery_code (p.random_bytes i))
    hashes ← hash_all codes
    modify
        (λ w. record w { mfas = p.mfas.update (λ r. r.id == m.id) (verified_with hashes) w.mfas })
    pure codes

  unfoldable pub verify_for_user : UserEntity → String → Action p (List String)
  unfolding find_for_user enable
  verify_for_user u clear_code = do
    found ← find_for_user u
    now ← time
    elim found [
      | none ↦ throw mfa_not_found
      | some m ↦ do
        throw_if (not (p.totp_verify m.secret clear_code now)) mfa_code_invalid
        enable m
    ]

  unfoldable pub validate_totp_for_user : UserEntity → String → Action p TotpValidateResult
  unfolding find_verified_for_user
  validate_totp_for_user u clear_code = do
    found ← find_verified_for_user u
    now ← time
    elim found [
      | none ↦ pure not_found
      | some m ↦ pure (if p.totp_verify m.secret clear_code now then valid else invalid)
    ]

  unfoldable pub disable_for_user : UserEntity → String → Action p (Unit {0})
  unfolding find_verified_for_user
  disable_for_user u clear_code = do
    found ← find_verified_for_user u
    now ← time
    elim found [
      | none ↦ throw mfa_not_found
      | some m ↦ do
        throw_if (not (p.totp_verify m.secret clear_code now)) mfa_code_invalid
        remove_mfa m
    ]
