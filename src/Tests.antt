-- ===== src/Tests.antt =====
-- Concrete inputs of the theorems.
mod Samples
mod Api
mod Audit
mod Alerts
mod Rules
mod Scoring
mod Registry
mod Requests
mod Restart
mod Watched
mod Advisor
mod Ingestion
