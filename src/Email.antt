-- ===== src/Email.antt =====
-- Outbound email and its replies: app/miniagents/email_delivery.py and email_reply_handler.py.
pub mod Models
pub mod Repo
pub mod Composer
pub mod Messages
pub mod Delivery
pub mod Keys
pub mod Once
pub mod Senders
pub mod Replies
pub mod Found
pub mod Routed
mod Tests
