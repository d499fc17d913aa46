-- ===== src/Matches.antt =====
-- packages/domain/src/matches: the match aggregate, its policies and its score format.
pub mod Status
pub mod Entity
pub mod LiveSync
pub mod FullSync
pub mod Closing
pub mod Knockout
pub mod Resolution
pub mod Halftime
pub mod Retention
