-- ===== src/Mana.antt =====
-- Mana: colours and costs (crates/cardir/src/types.rs), the pool of a player
-- (crates/engine/src/types.rs), and how a cost is paid (crates/engine/src/mana.rs).
pub mod Color
pub mod Cost
pub mod Pool
pub mod Payment
pub mod Search
mod Examples
