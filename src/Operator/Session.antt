-- ===== src/Operator/Session.antt =====
-- What a session with Postgres sends, when an operation on the database ends.
pub mod Ran
pub mod Worked
pub mod Refused
pub mod Initialized
pub mod Administered
pub mod Opened
pub mod Written
