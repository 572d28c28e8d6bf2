-- ===== src/Dedup/Unique.antt =====
-- No level of a forwarded record carries a key twice.
pub mod Tree
pub mod Output
