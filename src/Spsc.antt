-- ===== src/Spsc.antt =====
-- src/spsc/: the channels with one sender and one receiver.
pub mod Bounded
pub mod RingBuf
pub mod Unbounded
pub mod OneSpace
