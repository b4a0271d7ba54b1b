-- ===== src/Storage.antt =====
-- internal/storage: the rows, the statements, and the functions built from them.
pub mod Models
pub mod Sql
pub mod Due
pub mod Balance
pub mod Columns
pub mod Queries
pub mod Ids
pub mod Listen
pub mod Connect
