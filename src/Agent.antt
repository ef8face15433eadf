-- ===== src/Agent.antt =====
-- integrations/paperless/agent: from a Paperless event to an ingested document.
pub mod Failures
pub mod Planner
pub mod Runner
pub mod Reconcile
pub mod Webhook
