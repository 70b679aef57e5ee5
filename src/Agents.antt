-- ===== src/Agents.antt =====
-- backend/app/agents: what the pipeline decides about a detection.
pub mod Answer
pub mod Detection
pub mod Orchestrator
pub mod Response
pub mod Triage
