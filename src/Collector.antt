-- ===== src/Collector.antt =====
-- lib/collector.js: one collection of the live status of every configured route.
pub mod Plan
pub mod Fetches
pub mod Passes
pub mod Collect
pub mod States
pub mod Entries
pub mod Steps
pub mod Runs
pub mod Kept
pub mod Plans
pub mod Rounds
pub mod Ids
pub mod Sessions
pub mod Told
pub mod Collected
pub mod Reported
pub mod View
pub mod Viewed
pub mod Total
