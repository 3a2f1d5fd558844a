-- ===== src/Cache.antt =====
-- lib/intelligence/cache.py: what a run reuses of collections that are made already.
pub mod State
pub mod Entries
pub mod Hits
pub mod Hydration
pub mod Terminal
mod Examples
