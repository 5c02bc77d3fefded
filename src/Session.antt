-- ===== src/Session.antt =====
-- internal/session: the record of one client connection, and the manager of all of them.
pub mod Record
pub mod Manager
pub mod Tests
