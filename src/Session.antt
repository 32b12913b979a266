-- ===== src/Session.antt =====
-- internal/session: sessions, the store that keeps them, and the manager that sells them.
pub mod Defs
pub mod Store
pub mod Manager
mod Tests
