-- ===== src/Matchmaking.antt =====
-- packages/matchmaking/src: matches from their creation to their collection.
pub mod OrderedMap
pub mod Types
pub mod Store
pub mod EngineSession
pub mod Results
pub mod Lifecycle
pub mod Handles
pub mod Identities
pub mod Rematch
pub mod Lobby
pub mod Forfeit
pub mod Matchmaker
mod Examples
