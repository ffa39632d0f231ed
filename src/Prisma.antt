-- ===== src/Prisma.antt =====
-- The database that the services share: the schema, the tables of the Prisma client, and the
-- state that they hold.
pub mod Schema
pub mod Table
pub mod Insert
pub mod Client
pub mod Cascade
pub mod Memory
pub mod Example
pub use Schema.*
pub use Table.{Stamp, Direction, asc, desc}
pub use Insert.{SqlParam, int, text, InsertRow}
pub use Client.*
