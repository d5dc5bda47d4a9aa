-- ===== src/Spmc.antt =====
-- src/spmc: the channels with one sender and many receivers.
pub mod Unbounded
pub mod BoundedFast
