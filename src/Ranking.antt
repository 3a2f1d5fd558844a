-- ===== src/Ranking.antt =====
-- lib/intelligence/ranking.py: which candidates may be ranked, and in which order.
pub mod Decimal
pub mod Candidate
pub mod Positions
pub mod Evidence
pub mod Indexed
pub mod Shown
pub mod Score
pub mod Research
pub mod Rank
pub mod Every
pub mod Closed
pub mod Order
pub mod Bounds
pub mod Gates
mod Examples
