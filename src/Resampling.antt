-- ===== src/Resampling.antt =====
-- backend/app/market_data/resampling.py: candles of a timeframe out of candles of a shorter one.
pub mod Defs
pub mod Cutoff
mod Tests
