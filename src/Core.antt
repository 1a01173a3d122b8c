-- ===== src/Core.antt =====
-- packages/core/src: the values that the other packages share.
pub mod Types
pub mod FlowRate
pub mod PlayerId
pub mod Rng
mod Examples
