-- ===== src/Lock/Invariant.antt =====
-- lib/lock.js: what holds between any two steps of the contenders.
pub mod Defs
pub mod Moves
pub mod Keeps
pub mod Steps
