-- ===== src/Source.antt =====
-- src/source: the input bytes with their line index. `Index` has the operations of source.c, `Search`
-- the binary search over the line starts, `Location` what a location means.
pub mod Index
pub mod Search
pub mod Location
