-- ===== src/Streams.antt =====
-- packages/domain/src/streams and what drives a stream's life in apps/backend/src.
pub mod Entity
pub mod Lifecycle
