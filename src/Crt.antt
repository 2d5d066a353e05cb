-- ===== src/Crt.antt =====
-- backend/app/engines/crt/detector.py and backend/app/schemas/crt.py: candle range theory
-- confirmations out of sweep evidence.
pub mod Schema
pub mod Evidence
pub mod Detector
pub mod Sound
pub mod Total
mod Tests
