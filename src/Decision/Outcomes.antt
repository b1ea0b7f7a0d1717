-- ===== src/Decision/Outcomes.antt =====
-- What each operation on decisions comes to: either the database is as it was, or one row is replaced
-- under the guards of the code.
pub mod Respond
pub mod Timeout
pub mod Resolve
pub mod Sms
pub mod Open
