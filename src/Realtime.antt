-- ===== src/Realtime.antt =====
-- app/realtime
pub mod WsToken
pub mod Hub
mod SingleUse
mod Buffered
mod Tests
