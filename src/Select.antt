-- ===== src/Select.antt =====
-- src/select/: `Select` objects, which wait for any of several targets to become ready.
pub mod Inner
pub mod WaitQueue
pub mod Watch
pub mod Wait
mod Tests
