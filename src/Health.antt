-- ===== src/Health.antt =====
-- lib/intelligence/health.py: the health of the source capabilities, without the credentials.
pub mod Probe
pub mod Record
pub mod Secrecy
pub mod Meaning
mod Examples
