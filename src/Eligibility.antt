-- ===== src/Eligibility.antt =====
-- lib/eligibility.js: `evaluate(candidate, policy, registry)`. The two lists that `push` fills
-- are the state; each section of the function is the list of the pushes that it makes.
pub mod Inputs
pub mod Checks
pub mod Verdict
pub mod Spec
pub mod Sound
pub mod Signals
pub mod Unproven
pub mod Complete
pub mod Missing
pub mod Meaning
pub mod Order
pub mod Lists
