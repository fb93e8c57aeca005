-- ===== src/TwoFactor.antt =====
-- src/two-factor: a second factor by time-based codes or recovery codes, and remembered browsers.
pub mod Store
pub mod Devices
pub mod Codes
pub mod Service
pub mod Enrolment
pub mod Checks
pub mod Challenge
pub mod Restores
pub mod SecondHalf
pub mod Fixtures
pub mod Trust
pub mod Decider
pub mod Trusted
pub mod Asked
pub mod Enforced
pub mod Answered
pub mod Moves
pub mod Replay
pub mod Spends
mod DeciderTests
mod ServiceTests
mod Tests
