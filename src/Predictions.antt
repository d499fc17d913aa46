-- ===== src/Predictions.antt =====
-- packages/domain/src/predictions and the backend's settlement of predictions.
pub mod Values
pub mod Entity
pub mod Settlement
