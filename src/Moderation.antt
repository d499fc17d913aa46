-- ===== src/Moderation.antt =====
-- packages/domain/src/reporting and the use cases of apps/backend that act on reports: the policies,
-- the bans, the reports with the actions that they trigger.
pub mod Policies
pub mod Rows
pub mod Bans
pub mod Reports
pub mod Actions
pub mod World
pub mod Banning
pub mod Threshold
pub mod Filing
pub mod Reversal
