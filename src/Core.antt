-- ===== src/Core.antt =====
-- testinghq/core
pub mod ExitCodes
pub mod RateLimit
pub mod Report
pub mod Guardrails
pub mod Targets
