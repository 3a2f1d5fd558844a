-- ===== src/Learning.antt =====
-- lib/intelligence/learning.py: what is observed of outcomes, misses and failures, for review only.
pub mod Observation
pub mod Outcome
pub mod Missed
pub mod Rate
pub mod Rows
pub mod Homogeneous
pub mod Misses
pub mod Noise
mod Examples
