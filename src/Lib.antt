-- ===== src/Lib.antt =====
-- Verification of the Gracon user and authentication service: registration, email verification, login
-- and sessions, password reset, biometric identity verification, profile and activity.
--
-- A request handler of the service is a function from the state to an outcome and a state
-- (Platform.Handling): it returns or throws, and what it wrote before a throw stays written. The
-- state (`World`) holds the tables of the database as lists of rows, the messages handed to the mail
-- transport and the keys of the bucket. The clock, the random source, the salt and the vectors are
-- arguments (`Moment`, `Draw`).
--
-- Files and code, paths from the repository's root:
--   Common            lists as tables, texts, Boolean tests and their laws
--   Platform          the rows (Records), the database client as an interface with its documented
--                     laws (Database), handlers and exceptions (Handling, Laws), and S3, bcrypt, AES,
--                     SHA-256 and JWT as functions (Services)
--   SecurityEvents    src/common/security/security-event.service.ts
--   Storage           src/common/aws/s3/s3.service.ts
--   Users             src/modules/users/users.service.ts: Access (findByEmail, findById, the picture and
--                     the safe profile), Registration (register; src/common/pid/pid.service.ts),
--                     EmailVerification (verifyEmail, resendVerificationEmail), Password
--                     (changePassword), Profile (getProfile, updateProfile, uploadProfileImage),
--                     Activity (getActivity), Preferences (getPreferences, updatePreferences;
--                     src/modules/users/user-preferences.helper.ts), Requests (src/modules/users/dto)
--   Auth              src/modules/auth/auth.service.ts: login, refreshTokens, upgradeSession,
--                     upgradeToken, logout, logoutAllDevices; Auth.SingleFlight has the map of the
--                     pending refreshes (runSingleFlightRefresh) and the calls that come in while
--                     they are under way, Auth.Histories the histories of the session operations
--   Citizen           src/modules/citizen/citizen.service.ts (lookupCitizen) and
--                     exceptions/citizen-api.exception.ts, with the cache manager as an interface
--   ForeignIdentity   src/modules/foreign-identity/foreign-identity.client.ts (getByFin)
--   PasswordReset     src/modules/auth/password-reset.service.ts
--   Verification      src/modules/verification/verification.service.ts: the types, the exceptions and
--                     the window of attempts here, submitVerification and getVerificationStatus in
--                     Verification.Submit; the modules beside it hold the proofs
--   Validation        the request objects, src/modules/*/dto: what the decorators let through
--   Encryption        src/common/crypto/encryption.service.ts; the services take its operations as
--                     functions (Platform.Services)
--   Mailer            src/common/mailer/mailer.service.ts: the messages and their links
--   Guards            src/modules/auth/strategies/jwt.strategy.ts, src/common/guards/jwt-auth.guard.ts
--   Cleanup           src/common/tasks/token-cleanup.task.ts
--   Filters           src/common/filters
--   Http              the edge: the origin of a request (extractIp, getTracker) here, Cors and Docs
--                     (src/common/security/cors.config.ts, docs-auth.middleware.ts, src/main.ts), Uploads
--                     (src/common/aws/s3/multer.config.ts), Throttling (src/common/guards/
--                     throttler.guard.ts), Handlers and Routes (the controllers and the guard before them)
--   Configuration     src/config/env.validation.ts
--   Seeding           src/common/seeding/fake-verified-users.ts and, in Seeding.Script,
--                     prisma/seed-verified-users.ts
--   Tests             a client, a bucket and a state that run, and each theorem on them
--
-- The services meet in the state and in calls: a submission that passes upgrades the session
-- (Auth.upgrade_token), a login reads accounts and profiles (Users.Access), a reset and a change of
-- the password close sessions, a registration asks the two registries
-- (Users.Registration.Sources.registries_of), the routes call the services for the account of the
-- token (Http.Routes.serve), and every service writes the security log.
--
-- Bounds. Ids and digests are only compared and are numbers; times are milliseconds and numbers, so
-- `now - window` stops at 0 (the clock is past any window). Scores of the engine are only copied.
-- Nothing runs on fuel: every function is structural. The loops of the seeding that draw until a value
-- is free search a list of draws, of which enough are given (Seeding.Search). Numbers of the language
-- are not bounded here, since no value comes near 2^53.
--
-- Not modelled: the HTTP client of the engine (a function that may give no answer), the rendering of
-- the mails, the Helmet headers (constants for a package), start-up but for the gate before the
-- documentation. The handlers run one after another: what other handlers write while one awaits the
-- database is not modelled, but for the end of a refresh, which is of any result and any state
-- (Auth.SingleFlight.end_task), and the calls that join it. Log lines are left out.
mod Common
pub mod Platform
pub mod SecurityEvents
pub mod Storage
pub mod Users
pub mod Auth
pub mod Citizen
pub mod Configuration
pub mod Encryption
pub mod Mailer
pub mod ForeignIdentity
pub mod PasswordReset
pub mod Verification
pub mod Validation
pub mod Guards
pub mod Http
pub mod Cleanup
pub mod Seeding
pub mod Filters
mod Tests
