-- ===== src/Lock.antt =====
-- lib/lock.js: the provider mutation lock, and the ticket protocol that lib/refresh-owner.js runs
-- too. A contender is the name of its ticket file, `<pid>-<32 hex>.json`, which is never reused.

pub mod Contender
pub mod System
pub mod Invariant
pub mod Safety
pub mod Progress
pub mod Within
