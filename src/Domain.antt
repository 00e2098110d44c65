-- ===== src/Domain.antt =====
-- The enumerations of backend/app/domain/enums.py.

pub data ExperimentMode : Type 0 where
  historical_simulation paper_trading : ExperimentMode

pub data StrategyType : Type 0 where
  buy_and_hold moving_average agentic_ai opening_range_breakout : StrategyType
  paper_trading_smoke_test : StrategyType

pub data ExperimentStatus : Type 0 where
  created running paused stopped completed failed : ExperimentStatus

pub data TradingFrequency : Type 0 where
  daily hourly weekly monthly intraday_5_min test_1_min : TradingFrequency

pub data FeeModelType : Type 0 where
  none fixed percentage : FeeModelType

pub data ExecutionStepStatus : Type 0 where
  running completed skipped failed : ExecutionStepStatus

pub data TriggerType : Type 0 where
  historical scheduled manual event : TriggerType

pub data DecisionSourceType : Type 0 where
  strategy agent : DecisionSourceType

pub data TradeAction : Type 0 where
  buy sell hold : TradeAction

pub data TradeIntent : Type 0 where
  open_long add_to_long hold_position reduce_long close_long stay_out : TradeIntent

pub data FinalAction : Type 0 where
  buy sell hold : FinalAction

pub data OrderMode : Type 0 where
  simulated paper_broker : OrderMode

pub data BrokerName : Type 0 where
  alpaca none : BrokerName

pub data OrderSide : Type 0 where
  buy sell : OrderSide

pub data OrderStatus : Type 0 where
  created submitted filled rejected failed cancelled : OrderStatus

pub data AgentMode : Type 0 where
  single_agent pipeline : AgentMode

pub data AgentStepName : Type 0 where
  single_decision_agent fetch_data technical_analyst fundamental_analyst : AgentStepName
  sentiment_analyst market_analyst trading_decision risk_manager portfolio_manager : AgentStepName

pub data ParsingStatus : Type 0 where
  success failed repaired : ParsingStatus

pub data BrokerSyncStatus : Type 0 where
  success failed mismatch : BrokerSyncStatus

pub data EventDecisionStatus : Type 0 where
  triggered skipped failed : EventDecisionStatus

pub data EventLevel : Type 0 where
  info warning error : EventLevel

pub data SystemEventType : Type 0 where
  experiment_created experiment_started experiment_paused experiment_resumed : SystemEventType
  experiment_stopped experiment_completed experiment_failed market_data_missing : SystemEventType
  strategy_decision_created risk_limit_triggered order_submitted order_filled : SystemEventType
  order_failed broker_sync_failed broker_state_mismatch llm_output_invalid : SystemEventType
  llm_repair_attempted fallback_hold_used : SystemEventType

pub data PrimaryDriver : Type 0 where
  technical fundamental sentiment risk portfolio event_risk : PrimaryDriver
