-- ===== src/Execution.antt =====
-- backend/app/execution: fills of paper orders, the accounting of a fill, the ledger that admits them,
-- and the submission of orders. Prices, quantities and money are whole numbers of units, the unit of
-- money being that of a price times that of a quantity, so that sums and products are exact, as they
-- are under the decimal policy of the code; its rounded division is a parameter.
pub mod Models
pub mod Accounting
pub mod Books
pub mod Filling
pub mod Ledger
pub mod Orders
pub mod Replay
mod Rows
pub mod Steps
mod Bindings
mod Clock
pub mod History
pub mod Trades
pub mod Snapshots
pub mod Promises
pub mod Once
pub mod Filled
pub mod Paper
pub mod Net
pub mod Observation
pub mod Simulation
mod Cursor
mod Kept
pub mod Showing
pub mod Gapless
mod Tests
