-- ===== src/Announcements.antt =====
-- src/core/announcements.ts: the life of an announcement in the database.
pub mod Table
pub mod Error
pub mod Drafts
pub mod Publish
pub mod Schedule
pub mod Review
pub mod Keys
pub mod Updates
pub mod Ensures
pub mod Invariant
pub mod Rules
pub mod Evidence
pub mod Soundness
pub mod Sending
pub mod Drafting
pub mod Naming
pub mod Due
pub mod Scheduler
pub mod Timely
pub mod Kept
pub mod Keeping
pub mod History
