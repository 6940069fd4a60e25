-- ===== src/Lib.antt =====
-- Verification library of Authora, an authentication server (NestJS, PostgreSQL, Redis).
--
-- A client opens an auth session, passes a first factor (a password or a magic link) and, unless
-- the tenant's policy or a trusted device spares it, a second one (TOTP), and then trades the
-- session for tokens: directly (`exchangeSession`) or, in the third-party mode, by a one-time
-- exchange token (`exchange`, then `token`). Refresh tokens rotate inside a family, and the use of
-- a revoked one revokes its family. Accounts are made from verified registrations; passwords can
-- be changed and reset, devices trusted, accounts deleted.
--
-- The files, and the sources that they translate (paths from the root of the repository):
--   Model                 src/entity/*.entity.ts, src/redis-model/*.ts: rows, enums, the session
--   Config                src/config/authora-config.ts, src/config/tenant-config.ts
--   Redis.Keys            src/config/redis-keys.ts
--   Exec                  how an async method runs: it reads and writes the world, returns or throws
--   World                 the state that all services share, and the parameters
--   Hashing               src/service/hash.service.ts
--   Users                 src/service/entity-service/user-entity.service.ts
--   Passwords             src/service/entity-service/password-entity.service.ts, src/service/job.service.ts
--   RefreshTokens         src/service/entity-service/refresh-token-entity.service.ts
--   Devices               src/service/entity-service/trusted-device-entity.service.ts
--   Mfa                   src/service/entity-service/multi-factor-auth-entity.service.ts
--   Registrations         src/service/entity-service/registration-entity.service.ts
--   Attempts              src/service/entity-service/sign-in-attempt-entity.service.ts
--   Sessions              src/service/redis-model-service/auth-session-redis.service.ts
--   Tokens                src/service/redis-model-service/one-time-token-redis.service.ts
--   Emails                src/service/email.service.ts
--   SignIn                src/service/sign-in.service.ts: the session and the first factor; its
--                         children Totp, Completion and Refresh hold the other methods
--   Account               src/service/account.service.ts
--   SignUp                src/service/sign-up.service.ts
--   MultiFactor           src/service/multi-factor-auth.service.ts
--   PasswordRules         src/dto/validator/password/*.decorator.ts, given their setting;
--                         Breach: also src/config/breached-password.client.ts
--   Config.Names, .Values src/config/settings.ts and the values of a setting by its key
--   Config.Defaults, .Entities  the default configurations, and src/entity/authora-config.entity.ts,
--                         tenant-config.entity.ts, tenant.entity.ts, api-key.entity.ts
--   Site                  the tables and the environment behind the files below; its children are
--                         src/service/entity-service/authora-config-entity.service.ts,
--                         tenant-config-entity.service.ts, tenant-entity.service.ts and
--                         api-key-entity.service.ts
--   Settings              src/service/settings.service.ts: the cache in Redis before the rows
--   Bootstrap             src/service/bootstrap/*.ts, one hook after the other
--   Http                  a request on its way; Guards: src/guard/*.ts, Middleware:
--                         src/middleware/*.ts, Throttle:
--                         src/config/auth-throttle.guard.ts, Delay: src/interceptor/delay.interceptor.ts
--   Controllers           src/controller/*.ts, src/dto/output/*.ts, src/decorator/current-*.ts
-- A method keeps its name in snake case: `verifyUserPassword` is `Passwords.verify_user_password`.
-- The other children hold proofs and are named for what they prove; Examples is a deployment with
-- concrete parameters in which each theorem is applied.
--
-- The parameters, which are no code of the repository: the tables (`Repository`), Redis (`Redis`,
-- with expiry against the clock), and in `Platform` argon2, SHA-256, random values, JWT, TOTP and
-- the settings as the services below SettingsService read them. `Site` adds the tables of tenants,
-- keys and configurations, the verification of tokens and the environment, and
-- `Controllers.Password` lower-casing, SHA-1 and the answer of the range API on code units.
-- `Repository.Listed` and `Redis.Entries` meet the laws of the first two. Nothing is assumed of the
-- hashes or of random values but where a theorem says so.
--
-- What the model leaves out: a request runs alone and at one instant, so that interleavings of
-- requests are not modelled, nor are those of bootstrap hooks; violations of unique constraints,
-- failures of the database, the queue or Redis, and settings that do not exist throw nothing; what
-- a service deletes by a foreign key with CASCADE is deleted with the user. A relation `tenant` that
-- no query loads is read as the source reads an absent one, as ''. The answers that the services
-- get from SettingsService are not tied to `Settings`, but are values that stay: one configuration
-- for each tenant id, and for the id '', which no tenant has, one or none (`no_tenant`), where none
-- stands for the exception "tenant not found". What a rejected promise that nobody awaits does to
-- the process is left open. The loops run over lists, without fuel; only the spacing of doubles in
-- `Http.Delay` has 53 doublings as fuel, enough for every delay below 2^53 ms.
--
-- Not modelled: the wiring of the application (main, modules, the routes that the middlewares stand
-- on, environment, connections), the
-- validation of bodies, the documentation of routes, the counting of throttled requests, and the
-- handlers that only say TODO.
pub mod Prelude
pub mod Exec
pub mod Repository
pub mod Model
pub mod Redis
pub mod Config
pub mod World
pub mod Hashing
pub mod Users
pub mod Sessions
pub mod Tokens
pub mod RefreshTokens
pub mod Passwords
pub mod Devices
pub mod Attempts
pub mod Registrations
pub mod Emails
pub mod Mfa
pub mod SignIn
pub mod Account
pub mod SignUp
pub mod MultiFactor
pub mod PasswordRules
pub mod Site
pub mod Settings
pub mod Bootstrap
pub mod Http
pub mod Controllers
pub mod Examples
