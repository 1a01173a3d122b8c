-- ===== src/Fog.antt =====
-- packages/fog/src: what a player sees of a world.
pub mod Range
pub mod Mask
pub mod VisibleSet
pub mod EventsFilter
pub mod PlayerView
mod Examples
