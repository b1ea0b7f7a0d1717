-- ===== src/Telephony.antt =====
-- Inbound calls: app/telephony/events.py, app/telephony/dispatcher.py and the repositories it uses.
pub mod Events
pub mod Calls
pub mod Roster
pub mod Scope
pub mod Voice
pub mod Ended
pub mod Materialize
pub mod Webhook
mod Once
mod Attached
mod Matched
mod Redelivery
mod Tests
mod TurnTests
