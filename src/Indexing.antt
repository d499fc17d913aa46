-- ===== src/Indexing.antt =====
-- apps/backend/src/infrastructure/blockchain/indexers: how the events of the chain reach the tables.
pub mod Cursor
pub mod Bets
pub mod PariMatch
pub mod Leaderboard
