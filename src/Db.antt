-- ===== src/Db.antt =====
-- internal/db: the tables that the access control reads.
pub mod Blacklist
pub mod Tests
