-- ===== src/Users.antt =====
-- modules/users/users.service.ts, by what its operations are for.
pub mod Access
pub mod Requests
pub mod Registration
pub mod EmailVerification
pub mod Password
pub mod Profile
pub mod Activity
pub mod Preferences
