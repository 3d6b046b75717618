-- ===== src/Go.antt =====
-- The parts of Go's packages strings and path that the source uses, on the bytes of a string.
pub mod Bytes
pub mod Trim
pub mod Paths
