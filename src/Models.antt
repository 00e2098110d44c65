-- ===== src/Models.antt =====
-- The rows of the database (backend/app/persistence/models) that the modelled components read and
-- write. Times and dates are numbers of some unit; JSON columns are left out, but for the tags
-- that a component sets in them.
use trading_ai_framework.Prelude.{ℕ, Bool, Option}
use trading_ai_framework.Prelude.Text.{String}
use trading_ai_framework.Decimal.{Decimal}
use trading_ai_framework.Domain.{
  ExperimentMode, StrategyType, ExperimentStatus, TradingFrequency, FeeModelType,
  ExecutionStepStatus, TriggerType, OrderMode, BrokerName, BrokerSyncStatus, OrderSide, OrderStatus,
  AgentMode, EventLevel, SystemEventType, DecisionSourceType, AgentStepName, ParsingStatus,
  EventDecisionStatus, TradeAction, TradeIntent, PrimaryDriver,
}

-- `PortfolioModel`
pub record Portfolio : Type 0 where
  pub cash : Decimal
  pub position_symbol : Option String
  pub position_quantity : Option Decimal
  pub current_price : Option Decimal
  pub current_position_value : Option Decimal
  pub current_portfolio_value : Option Decimal
  pub updated_at : ℕ

-- `OrderModel`; the order type is always MARKET.
pub record Order : Type 0 where
  pub id : ℕ
  pub execution_step_id : ℕ
  pub risk_check_id : ℕ
  pub mode : OrderMode
  pub broker_name : Option BrokerName
  pub broker_order_id : Option String
  pub symbol : String
  pub side : OrderSide
  pub quantity : Decimal
  pub status : OrderStatus
  pub submitted_at : Option ℕ
  pub filled_at : Option ℕ
  pub average_fill_price : Option Decimal
  pub error_message : Option String
  pub created_at : ℕ

-- `TradeModel`; the quantity and the price have at most the eight places of their columns, which then
-- keep them as they are.
pub record Trade : Type 0 where
  pub execution_step_id : ℕ
  pub order_id : ℕ
  pub timestamp : ℕ
  pub symbol : String
  pub side : OrderSide
  pub quantity : Decimal
  pub price : Decimal
  pub order_value : Option Decimal
  pub fee : Option Decimal
  pub portfolio_value_after_trade : Option Decimal
  pub created_at : ℕ

-- `ExperimentModel`
pub record Experiment : Type 0 where
  pub id : ℕ
  pub name : String
  pub mode : ExperimentMode
  pub strategy_type : StrategyType
  pub asset_symbol : String
  pub status : ExperimentStatus
  pub initial_capital : Decimal
  pub start_date : ℕ
  pub end_date : ℕ
  pub trading_frequency : TradingFrequency
  pub fee_model_type : FeeModelType
  pub fee_value : Decimal
  pub created_at : ℕ
  pub updated_at : ℕ

-- `StrategyConfigModel`
pub record StrategyConfig : Type 0 where
  pub strategy_type : StrategyType
  pub moving_average_window : Option ℕ
  pub agent_mode : Option AgentMode
  pub model_name : Option String
  pub confidence_threshold : Option Decimal
  pub created_at : ℕ
  pub updated_at : ℕ

-- `ExecutionStepModel`
pub record ExecutionStep : Type 0 where
  pub id : ℕ
  pub scheduled_for : Option ℕ
  pub started_at : Option ℕ
  pub completed_at : Option ℕ
  pub status : ExecutionStepStatus
  pub trigger_type : TriggerType
  pub sequence_number : ℕ
  pub error_message : Option String
  pub created_at : ℕ

-- `PortfolioSnapshotModel`
pub record PortfolioSnapshot : Type 0 where
  pub execution_step_id : ℕ
  pub timestamp : ℕ
  pub cash : Decimal
  pub position_symbol : Option String
  pub position_quantity : Option Decimal
  pub position_market_value : Option Decimal
  pub total_portfolio_value : Option Decimal
  pub current_price : Option Decimal
  pub created_at : ℕ

-- `SystemEventLogModel`
pub record SystemEventLog : Type 0 where
  pub execution_step_id : Option ℕ
  pub timestamp : ℕ
  pub level : EventLevel
  pub event_type : SystemEventType
  pub message : String
  pub created_at : ℕ

-- `DailyBar` of backend/app/modules/market_data/provider.py
pub record DailyBar : Type 0 where
  pub date : ℕ
  pub open_price : Decimal
  pub high : Decimal
  pub low : Decimal
  pub close : Decimal
  pub adjusted_close : Decimal
  pub volume : Decimal
  pub timestamp : Option ℕ

-- `MarketDataSnapshotModel`, less its RSI, which is never set, and the other figures of the bar
pub record MarketDataSnapshot : Type 0 where
  pub execution_step_id : ℕ
  pub timestamp : ℕ
  pub symbol : String
  pub price : Decimal
  pub moving_average : Option Decimal
  pub created_at : ℕ

-- `TradingDecisionModel`, less the suggested amounts, which are never set
pub record TradingDecision : Type 0 where
  pub execution_step_id : ℕ
  pub source_type : DecisionSourceType
  pub source_name : String
  pub action : TradeAction
  pub symbol : String
  pub confidence : Decimal
  pub trade_intent : Option TradeIntent
  pub target_exposure_pct : Option Decimal
  pub primary_driver : Option PrimaryDriver
  pub new_information : Option Bool
  pub reason : String
  pub created_at : ℕ

-- `AgentDecisionLogModel`
pub record AgentDecisionLog : Type 0 where
  pub execution_step_id : ℕ
  pub trading_decision_id : ℕ
  pub agent_mode : AgentMode
  pub agent_step_name : AgentStepName
  pub agent_name : String
  pub prompt_version : String
  pub model_name : Option String
  pub model_version : Option String
  pub prompt_text : String
  pub raw_output_text : String
  pub parsing_status : ParsingStatus
  pub repair_prompt_text : Option String
  pub repair_raw_output_text : Option String
  pub created_at : ℕ

-- `EventDecisionModel`, of one experiment
pub record EventDecision : Type 0 where
  pub event_id : ℕ
  pub execution_step_id : Option ℕ
  pub trading_decision_id : Option ℕ
  pub status : EventDecisionStatus
  pub reason : String
  pub created_at : ℕ
  pub updated_at : ℕ

-- `MetricSnapshotModel`
pub record MetricSnapshot : Type 0 where
  pub execution_step_id : ℕ
  pub timestamp : ℕ
  pub total_return : Decimal
  pub profit_loss : Decimal
  pub number_of_trades : ℕ
  pub max_drawdown : Decimal
  pub buy_and_hold_return : Decimal
  pub difference_to_buy_and_hold : Decimal
  pub created_at : ℕ

-- `BrokerSyncLogModel`, less the broker's name and cash, which are always ALPACA and none
pub record BrokerSyncLog : Type 0 where
  pub execution_step_id : ℕ
  pub timestamp : ℕ
  pub sync_status : BrokerSyncStatus
  pub local_cash : Option Decimal
  pub error_message : Option String
  pub created_at : ℕ
