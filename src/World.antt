-- ===== src/World.antt =====
-- What the services share. `Platform` is the code that is not the repository's: the database, Redis,
-- argon2 (its options come from the settings, its salt from `n`), node's crypto, the JWT library,
-- the TOTP library, and the answers of SettingsService. `World` is the state: the tables, the
-- Redis store, the emails handed to the queue, the number of random values drawn, and the time,
-- which stands still during one request. Random values are the draws `random_hex n`, `uuid n`.
use authora.Prelude.{ℕ, suc, String, Bool, Option, List}
use authora.Model.{
  UserEntity, PasswordEntity, RefreshTokenEntity, RegistrationEntity, TrustedDeviceEntity,
  MultiFactorAuthEntity, SignInAttemptEntity,
}
use authora.Config.{AuthoraConfig, TenantConfig}
use authora.Repository.{Repository}
use authora.Redis.{Redis}
use authora.Exec.{Exec, ok, or_throw, tenant_not_found}

pub record Platform : Type 1 where
  pub users : Repository UserEntity
  pub passwords : Repository PasswordEntity
  pub refresh_tokens : Repository RefreshTokenEntity
  pub registrations : Repository RegistrationEntity
  pub devices : Repository TrustedDeviceEntity
  pub mfas : Repository MultiFactorAuthEntity
  pub attempts : Repository SignInAttemptEntity
  pub redis : Redis
  -- `argon2.hash(value, { memoryCost, timeCost, parallelism })`, `argon2.verify(hash, value)`
  pub argon2_hash : (memory_cost time_cost parallelism salt : ℕ) → String → String
  pub argon2_verify : String → String → Bool
  pub sha256 : String → String
  -- `randomBytes(32).toString('hex')`, `randomBytes(8)`, `randomUUID()`
  pub random_hex : ℕ → String
  pub random_bytes : ℕ → List ℕ
  pub uuid : ℕ → String
  -- `signAsync({ sub, email })` at a time; the `sub` of `decode(token)`, `none` if it throws
  pub sign : String → String → ℕ → String
  pub decode : String → Option String
  -- `speakeasy.generateSecret`, and `totp.verify(secret, token)` at a time
  pub generate_secret : ℕ → String → String
  pub totp_verify : String → String → ℕ → Bool
  -- `QRCode.toDataURL(otpauthURL(secret, label))`
  pub qrcode : String → String → String
  -- `toLowerCase()`
  pub to_lower_case : String → String
  pub authora : AuthoraConfig
  -- the settings of a tenant's id, and what is answered for the tenant '': `none` if that read throws
  pub tenant : String → TenantConfig
  pub no_tenant : Option TenantConfig

-- The link of an email: the base URL, the path, and the query's parameters in order.
pub record Link : Type 0 where
  pub base : String
  pub path : String
  pub query : List (String × String)

-- `emit(pattern, payload)` of the queue's client
pub record Email : Type 0 where
  pub pattern_name : String
  pub email : String
  pub token : String
  pub link : Option Link

pub record World (p : Platform) : Type 0 where
  pub now : ℕ
  pub draws : ℕ
  pub users : p.users.Table
  pub passwords : p.passwords.Table
  pub refresh_tokens : p.refresh_tokens.Table
  pub registrations : p.registrations.Table
  pub devices : p.devices.Table
  pub mfas : p.mfas.Table
  pub attempts : p.attempts.Table
  pub redis : p.redis.Store
  pub outbox : List Email

abbrev pub Action : Platform → Type 0 → Type 0
Action p A = Exec (World p) A

-- the number of the next random draw
abbrev pub draw : {p : Platform} → Action p ℕ
draw w = (ok w.draws, record w { draws = suc w.draws })

abbrev pub time : {p : Platform} → Action p ℕ
time w = (ok w.now, w)

-- a read of settings for `user.tenant?.id ?? ''`: no query loads the relation `tenant` of a user, so
-- that the id is ''
abbrev pub read_without_tenant : {p : Platform} → Action p TenantConfig
read_without_tenant {p} = or_throw tenant_not_found p.no_tenant
