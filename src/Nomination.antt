-- ===== src/Nomination.antt =====
-- `validate_research_nominations` of lib/intelligence/research_queue.py.
pub mod Pattern
pub mod Request
pub mod Validate
pub mod Reviewed
pub mod Bound
mod Examples
