-- ===== src/Store.antt =====
-- The tables of internal/store/migrations/*.sql, row by row, and the statements that the services
-- run on them.
mod Rows
mod Statements
mod Rules
mod Changes
unfoldable pub use Rows.*
unfoldable pub use Statements.*
pub use Rules.*
pub use Changes.*
