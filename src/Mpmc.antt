-- ===== src/Mpmc.antt =====
-- src/mpmc: the bounded channel whose peers all send and receive.
pub mod Bounded
