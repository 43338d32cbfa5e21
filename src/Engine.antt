-- ===== src/Engine.antt =====
-- The rules engine (crates/engine): objects, players, events, phases and the moves between zones.
pub mod Objects
pub mod Phases
pub mod Events
pub mod Game
pub mod Zones
pub mod TurnOrder
pub mod Combat
pub mod Turn
pub mod Mulligan
mod Examples
