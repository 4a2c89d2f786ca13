-- ===== src/Profile.antt =====
-- lib/task-profile.js: the eight dimensions of a task, the profile that layers of evidence give,
-- and the check of a classifier's response.

pub mod Dimensions
pub mod Build
pub mod Response
pub mod Listed
pub mod Layers
pub mod Accepted
pub mod Words
pub mod FromJev
