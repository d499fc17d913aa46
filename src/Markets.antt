-- ===== src/Markets.antt =====
-- packages/domain/src/markets and the labels of packages/domain/src/blockchain-indexing/policies.
pub mod Manifest
pub mod Sorting
pub mod Labels
