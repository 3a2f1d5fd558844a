-- ===== src/Cursor.antt =====
-- lib/intelligence/cursors.py and lib/intelligence/limits.py: durable source cursors.
pub mod Checks
pub mod Record
pub mod Window
pub mod Page
pub mod Update
pub mod Merged
pub mod Validity
pub mod Steps
pub mod Watermark
pub mod Progress
pub mod Opening
pub mod Given
pub mod Pages
pub mod Collected
pub mod Gaps
mod Examples
