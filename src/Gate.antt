-- ===== src/Gate.antt =====
-- lib/gate.js: whether a dispatch is let through.

pub mod Time
pub mod Decide
pub mod Usable
pub mod Open
pub mod Calendar
pub mod RoundTrip
