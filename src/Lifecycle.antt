-- ===== src/Lifecycle.antt =====
-- backend/app/engines/signal/lifecycle.py and backend/app/schemas/signal_lifecycle.py: a signal is
-- replayed over closed candles. `Schema` has the records and their validators, `Events` what a pass
-- of the loop works with, and `Replay` the loop.
pub mod Schema
pub mod Events
pub mod Replay
pub mod Trace
pub mod Invariant
pub mod Outcome
pub mod Profit
pub mod Prefix
pub mod Timing
pub mod Instants
mod Tests
