-- ===== src/ErrorTracker.antt =====
-- backend/app/services/error_tracker: the intake of error reports.
pub mod Envelope
pub mod RateLimit
mod Lifecycle
pub mod Examples
