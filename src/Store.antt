-- ===== src/Store.antt =====
-- The database and the repository over it: backend/internal/repository/pgrepo, with the queries of
-- backend/db/queries and the constraints of backend/db/migrations.
pub mod Rows
pub mod Monad
pub mod Accounts
pub mod Ceilings
pub mod Payments
pub mod Transactions
pub mod Transfers
pub mod Calls
pub mod Keeps
pub mod Gauge
pub mod Runs
pub mod Processed
