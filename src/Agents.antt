-- ===== src/Agents.antt =====
-- The agents that decide for an experiment: backend/app/modules/agents.
pub mod Types
pub mod DecisionGate
