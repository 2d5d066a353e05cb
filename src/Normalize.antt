-- ===== src/Normalize.antt =====
-- backend/app/market_data/normalization.py, with the errors of backend/app/market_data/exceptions.py
-- that it raises. The functions are generic over the candle, as the source's protocol
-- `TimestampedCandle`; datetimes are UTC instants, so `normalize_utc_datetime` is the identity.
pub mod Defs
pub mod Sorting
pub mod Grid
pub mod Sessions
pub mod Orders
mod Tests
