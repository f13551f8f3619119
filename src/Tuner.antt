-- ===== src/Tuner.antt =====
-- tuner/tuner: the search for compilation parameters of a dispatch.
pub mod Problem
pub mod Constraints
pub mod Solutions
pub mod Collisions
pub mod Ranking
