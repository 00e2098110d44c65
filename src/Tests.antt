-- ===== src/Tests.antt =====
-- Runs of the model on concrete inputs, and each theorem at an input that meets its hypotheses.
mod RiskTests
mod RunTests
mod ExperimentTests
mod SyncTests
mod StrategyTests
mod AgentTests
mod StepTests
mod MarketTests
mod PaperTests
mod BreakoutTests
