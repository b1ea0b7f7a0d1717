-- ===== src/Orchestrator.antt =====
-- app/orchestrator
pub mod Streaming
pub mod ToolDispatch
pub mod Session
pub mod Transcripts
pub mod Substream
pub mod Tools
pub mod Turn
pub mod SmsScope
pub mod SmsTurn
mod Markers
mod Reading
mod ReadingLaws
mod Scanned
mod Streamed
mod Tests
mod SmsReplies
mod SmsCalls
mod Ran
mod Heard
mod ScanTests
mod TurnTests
mod SmsTests
mod ToolTests
mod Saves
pub mod Pending
pub mod Waiting
pub mod Kept
pub mod Awaited
