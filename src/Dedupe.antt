-- ===== src/Dedupe.antt =====
-- lib/intelligence/dedupe.py: which items of a run are retained.
pub mod Ratio
pub mod Matching
pub mod Disposition
pub mod Retained
pub mod Justified
pub mod Replay
pub mod Exact
pub mod Near
mod Examples
