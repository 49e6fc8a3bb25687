-- ===== src/Diagnosis.antt =====
-- The diagnosis files beside tools/viewer/web/app.js: timestamps, redaction and the session of an
-- analysis.
pub mod Timeline
pub mod Ranges
pub mod Json
pub mod Redaction
pub mod Canonical
pub mod Validator
pub mod Rules
pub mod Controller
pub mod Workflow
