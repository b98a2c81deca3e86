-- ===== src/V3bw.antt =====
-- v3bw.c: the measurement results are read back and a bandwidth file is made of them.
pub mod Median
pub mod Order
pub mod Info
pub mod Words
pub mod Input
pub mod RoundTrip
pub mod Generate
