-- ===== src/Card.antt =====
-- The crate crates/cardir: the values that cards are made of (types.rs) and the representation of a
-- card (ir.rs).
pub mod Types
pub mod Ir
