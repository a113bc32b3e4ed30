-- ===== src/Buf.antt =====
-- src/buf: the growable byte buffer. `Ops` has the operations of buf.c, `Growth` the capacity,
-- `Append` the writers against list append, `Patch` the in-place write.
pub mod Ops
pub mod Growth
pub mod Append
pub mod Patch
