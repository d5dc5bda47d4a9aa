-- ===== src/Mpsc.antt =====
-- src/mpsc: the channels with many senders and one receiver.
pub mod Unbounded
pub mod BoundedFast
