-- ===== src/Sql.antt =====
-- The SQL builder: include/obelisk/database/builder and source/database/builder.
pub mod Syntax
pub mod Compile
pub mod Separate
pub mod Query
pub mod Where
pub mod Statement
pub mod Guards
pub mod Insert
mod Tests
