-- ===== src/Comparison.antt =====
-- lib/intelligence/comparison.py: a candidate compared with what the owner holds and plans.
pub mod Candidate
pub mod Compare
pub mod Limits
pub mod Complete
mod Examples
