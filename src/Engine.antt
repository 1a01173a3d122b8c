-- ===== src/Engine.antt =====
-- packages/engine/src: the deterministic simulation.
pub mod Types
pub mod Valid
pub mod Registry
pub mod Pipes
pub mod Reserves
pub mod Attrition
pub mod Production
pub mod Flow
pub mod Capture
pub mod Combat
pub mod Gun
pub mod Paratroop
pub mod Terminal
pub mod ApplyCommand
pub mod Sort
pub mod Tick
pub mod Run
pub mod Create
pub mod Examples
pub mod Validate
pub mod Decay
pub mod Read
