-- ===== src/Gaps.antt =====
-- backend/app/engines/smc/fvg.py: fair value gaps, the inverse gaps that they turn into, and the
-- lifecycle of each, replayed candle by candle.
pub mod Schema
pub mod Zones
pub mod Analysis
pub mod Archive
pub mod Paths
pub mod Total
pub mod Growth
pub mod Repaint
mod Tests
