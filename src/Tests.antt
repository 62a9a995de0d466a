-- ===== src/Tests.antt =====
-- Examples: each theorem applied to concrete inputs.
mod Numbers
mod Cache
mod Calibration
mod Online
mod Serving
mod Retrieval
mod Feedback
mod Query
mod Runtime
mod Shadow
mod Audit
mod Thresholds
mod Monitored
