-- ===== src/Util.antt =====
-- The utilities of the client (io.util).
pub mod Indexing
pub mod Intersect
pub mod Query
pub mod Address
pub mod Objects
