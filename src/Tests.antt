-- ===== src/Tests.antt =====
-- Runs on small inputs, and the theorems applied at inputs where their hypotheses hold.
pub mod Scenario
pub mod Publishing
pub mod Delivering
pub mod Subscribing
pub mod Destinations
pub mod Hooks
pub mod Alerting
pub mod Slugs
pub mod Signing
pub mod Deploying
pub mod Requests
pub mod Working
pub mod Mentioning
pub mod Posting
pub mod Submitting
