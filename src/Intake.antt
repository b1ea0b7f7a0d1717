-- ===== src/Intake.antt =====
-- The intake of a workspace's knowledge: app/services/intake_processor.py, intake_processing.py,
-- intake_handlers.py and the registry of the extractors.
pub mod Models
pub mod Repo
pub mod Extract
pub mod World
pub mod Processor
pub mod Pages
pub mod Handlers
pub mod Processing
pub mod Api
pub mod Runs
pub mod Processed
pub mod Locked
pub mod Reviewed
pub mod Deduped
pub mod Life
pub mod Steps
mod Tests
