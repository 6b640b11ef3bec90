-- ===== src/Tests.antt =====
-- Tests on concrete data, and the theorems at inputs that meet their hypotheses.
mod Sorting
mod Fixture
mod AuthCases
mod ResetCases
mod VerificationCases
mod UsersCases
mod CitizenCases
mod CryptoCases
mod FlightCases
mod SeedCases
mod HttpCases
mod MailerCases
mod SourceCases
mod ValidationCases
mod ProfileCases
