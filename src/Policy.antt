-- ===== src/Policy.antt =====
-- lib/intelligence/policy.py: the settings that a run may be started with.
pub mod Value
pub mod Budget
pub mod Load
pub mod Bounds
pub mod Approved
mod Examples
