-- ===== src/Structure.antt =====
-- backend/app/engines/structure/primitives.py and backend/app/schemas/structure.py: swings, the trend
-- and the breaks of structure. Prices are on the grid of Candle, and the tick size is a number of it.
pub mod Schema
pub mod Sequences
pub mod Swings
pub mod Stability
pub mod Breaks
pub mod Fresh
pub mod Valid
mod Tests
