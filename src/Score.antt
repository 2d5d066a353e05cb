-- ===== src/Score.antt =====
-- backend/app/engines/signal/score.py: the weighted score of the evidence for a signal.
pub mod Schema
pub mod Calculation
pub mod Promises
pub mod Mirror
mod Tests
