-- ===== src/Execution/Store.antt =====
-- The rows of one experiment, as the repositories of backend/app/persistence/repositories read and
-- write them. Rows stand in the order of their identities; an added row gets the next one.
pub mod Steps
use trading_ai_framework.Prelude.{
  ℕ, suc, ◌+◌, max, Bool, true, false, ◌&&◌, ◌||◌, Option, none, some, List, [], ◌∷◌, ◌++◌, map,
  length, leb, ◌==◌, if◌then◌else◌,
}
use trading_ai_framework.Decimal.{Decimal}
use trading_ai_framework.Domain.{ExecutionStepStatus, TriggerType}
use trading_ai_framework.Models.{
  Portfolio, Order, Trade, Experiment, StrategyConfig, ExecutionStep, PortfolioSnapshot,
  SystemEventLog, MarketDataSnapshot, TradingDecision, MetricSnapshot, BrokerSyncLog,
  AgentDecisionLog, EventDecision,
}
use trading_ai_framework.Execution.Risk.{RiskResult}

pub record Store : Type 0 where
  pub experiment : Option Experiment
  pub portfolio : Option Portfolio
  pub strategy_config : Option StrategyConfig
  pub steps : List ExecutionStep
  pub market_data : List MarketDataSnapshot
  pub decisions : List TradingDecision
  pub risk_checks : List RiskResult
  pub orders : List Order
  pub trades : List Trade
  pub snapshots : List PortfolioSnapshot
  pub metrics : List MetricSnapshot
  pub events : List SystemEventLog
  pub sync_logs : List BrokerSyncLog
  pub agent_logs : List AgentDecisionLog
  pub event_decisions : List EventDecision

-- The identity of a row that is added to a table.
abbrev pub next_id {ℓ} : {A : Type ℓ} → List A → ℕ
next_id rows = suc (length rows)

-- `ExecutionStepRepository.max_sequence_number`
unfoldable pub max_sequence_number : List ExecutionStep → ℕ
max_sequence_number [] = 0
max_sequence_number (s ∷ steps) = max s.sequence_number (max_sequence_number steps)

abbrev pub is_running : ExecutionStepStatus → Bool
is_running ExecutionStepStatus.running = true
is_running other = false

-- `ExecutionStepRepository.has_running_step`
unfoldable pub has_running_step : List ExecutionStep → Bool
has_running_step [] = false
has_running_step (s ∷ steps) = if is_running s.status then true else has_running_step steps

abbrev pub is_scheduled : TriggerType → Bool
is_scheduled TriggerType.scheduled = true
is_scheduled _ = false

abbrev pub is_at : ℕ → Option ℕ → Bool
is_at slot none = false
is_at slot (some t) = t == slot

-- `ExecutionStepRepository.has_step_for_scheduled_slot`
unfoldable pub has_step_for_scheduled_slot : ℕ → List ExecutionStep → Bool
has_step_for_scheduled_slot slot [] = false
has_step_for_scheduled_slot slot (s ∷ steps) =
    (is_scheduled s.trigger_type && is_at slot s.scheduled_for)
    || has_step_for_scheduled_slot slot steps

-- `session.get(ExecutionStepModel, id)`
unfoldable pub get_step : ℕ → List ExecutionStep → Option ExecutionStep
get_step id [] = none
get_step id (s ∷ steps) = if s.id == id then some s else get_step id steps

-- An update of the row with an identity.
unfoldable pub update_step :
    ℕ → (ExecutionStep → ExecutionStep) → List ExecutionStep → List ExecutionStep
update_step id f [] = []
update_step id f (s ∷ steps) = (if s.id == id then f s else s) ∷ update_step id f steps

insert_by_timestamp : PortfolioSnapshot → List PortfolioSnapshot → List PortfolioSnapshot
insert_by_timestamp x [] = x ∷ []
insert_by_timestamp x (y ∷ ys) =
    let later = y ∷ insert_by_timestamp x ys in
    if leb x.timestamp y.timestamp then x ∷ y ∷ ys else later

-- `PortfolioSnapshotRepository.list_by_experiment`, ordered by time and identity
unfoldable pub list_by_experiment : List PortfolioSnapshot → List PortfolioSnapshot
unfolding insert_by_timestamp
list_by_experiment [] = []
list_by_experiment (x ∷ xs) = insert_by_timestamp x (list_by_experiment xs)

add_value : Option Decimal → List Decimal → List Decimal
add_value none values = values
add_value (some v) values = v ∷ values

-- The total values that are set.
unfoldable pub total_values : List PortfolioSnapshot → List Decimal
unfolding add_value
total_values [] = []
total_values (s ∷ snapshots) = add_value s.total_portfolio_value (total_values snapshots)
