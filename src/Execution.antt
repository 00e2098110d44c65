-- ===== src/Execution.antt =====
-- The execution modules of backend/app/modules/execution.
pub mod Risk
pub mod Simulation
pub mod Metrics
pub mod Store
pub mod Errors
pub mod Orchestrator
pub mod RunEnd
pub mod Historical
pub mod AgentStep
pub mod StepRunner
pub mod BrokerSync
pub mod PaperProvider
pub mod PaperExecution
pub mod PaperSteps
pub mod PaperArtifacts
pub mod PaperRunner
pub mod Breakout
