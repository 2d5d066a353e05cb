-- ===== src/Admission.antt =====
-- backend/app/core/admission.py: the fixed-window budget of requests, and the verdict of a backend.
pub mod Counts
pub mod Budget
pub mod Verdict
pub mod Limits
pub mod Windows
mod Tests
