-- ===== src/Quota.antt =====
-- lib/intelligence/quota.py: exact-once consumption of the gateway's quota reservations.
pub mod Session
pub mod Opening
pub mod Capacity
pub mod Exhaustion
mod Examples
