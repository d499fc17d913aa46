-- ===== src/Tests.antt =====
-- The results at concrete inputs, and runs of the definitions.
mod Matches
mod Predictions
mod Bans
mod Reports
mod Streams
mod Markets
mod Sync
mod Closing
mod Knockout
mod Reversal
mod Indexing
mod Locks
mod Rewards
mod Resolution
mod FullSync
mod Retention
