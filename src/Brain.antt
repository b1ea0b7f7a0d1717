-- ===== src/Brain.antt =====
-- The per-workspace brain: app/brain/postgres_brain.py, app/services/corrections.py and
-- app/miniagents/brain_updater.py.
pub mod Store
pub mod Pages
pub mod Upsert
pub mod History
pub mod Versions
pub mod Frozen
pub mod Correction
pub mod Override
pub mod Slug
pub mod Updater
mod Gained
mod Mentions
mod Retags
mod Mentioned
mod Tags
mod Tests
mod TagTests
