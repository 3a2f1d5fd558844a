-- ===== src/Relation.antt =====
-- lib/intelligence/relationships.py: which evidence ties an event to a security, and when that is enough.
pub mod Text
pub mod Item
pub mod Proposal
pub mod Prioritized
pub mod Retained
pub mod Eligible
pub mod Adverse
mod Examples
