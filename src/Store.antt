-- ===== src/Store.antt =====
-- The database as the services see it (backend/prisma/schema.prisma, and the Prisma client): a table
-- is the list of its rows, the newest first, so a read `orderBy: { createdAt: 'desc' }` is a read in
-- the order of the list. A call is a function of the database that keeps what it wrote when it
-- throws; a transaction takes that back. Keys that the database or `randomUUID` make are the next
-- number that has not been used.
mod People
mod Goods
mod Rows
mod Monad
pub use People.*
pub use Goods.*
pub use Rows.*
pub use Monad.*
pub use ledger_light_admin.Base.{
  pure, throw, gets, or_throw, lift, ◌>>=◌, ◌>>◌, throw_if, write, rolled_back, transaction,
}
