-- ===== src/Database.antt =====
-- Connections and what runs on them: include/obelisk/database.
pub mod Pool
pub mod Blueprint
pub mod Session
