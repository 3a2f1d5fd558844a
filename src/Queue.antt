-- ===== src/Queue.antt =====
-- lib/intelligence/research_queue.py: which candidates are enriched, and by which requests.
pub mod Reservation
pub mod Candidate
pub mod RoundRobin
pub mod Limits
pub mod Complete
pub mod Passed
pub mod Request
pub mod Envelope
pub mod Manifest
pub mod Sealed
pub mod Payload
pub mod Enveloped
pub mod Tamper
mod Examples
mod ManifestExamples
