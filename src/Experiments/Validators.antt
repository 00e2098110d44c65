-- ===== src/Experiments/Validators.antt =====
-- The check of a request for a new experiment: backend/app/modules/experiments/validators.py, with
-- the symbols of backend/app/domain/assets.py.
pub mod Supported
use trading_ai_framework.Prelude.{
  ℕ, Bool, true, false, not, ◌&&◌, ◌||◌, Option, none, some, List, [], ◌∷◌, ltb, leb, if◌then◌else◌,
}
use trading_ai_framework.Prelude.Int.{ℤ, pos, negsuc}
use trading_ai_framework.Prelude.Text.{String, str_eq, is_in, upper, strip}
use trading_ai_framework.Domain.{
  ExperimentMode, StrategyType, TradingFrequency, FeeModelType, AgentMode,
}
use trading_ai_framework.Decimal
use trading_ai_framework.Decimal.{Decimal}

-- `StrategyConfigInput`; of its JSON parameters, the entry `riskConfig.fallbackAction`, where it is
-- a text.
pub record StrategyConfigInput : Type 0 where
  pub moving_average_window : Option ℤ
  pub agent_mode : Option AgentMode
  pub model_name : Option String
  pub confidence_threshold : Option Decimal
  pub fallback_action : Option String

-- `CreateExperimentRequest` of backend/app/api/schemas/experiment_schemas.py
pub record CreateExperimentRequest : Type 0 where
  pub name : String
  pub mode : ExperimentMode
  pub strategy_type : StrategyType
  pub asset_symbol : String
  pub initial_capital : Decimal
  pub start_date : ℕ
  pub end_date : ℕ
  pub trading_frequency : TradingFrequency
  pub fee_model_type : FeeModelType
  pub fee_value : Decimal
  pub strategy_config : StrategyConfigInput

-- The settings that the check reads (backend/app/core/config.py).
pub record Settings : Type 0 where
  pub paper_trading_test_mode_enabled : Bool
  pub scadsai_default_model : String
  pub scadsai_allowed_model_list : List String

-- `SUPPORTED_EQUITY_SYMBOLS`
abbrev supported_equity_symbols : List String
supported_equity_symbols =
    "SPY" ∷ "AAPL" ∷ "MSFT" ∷ "NVDA" ∷ "AMZN" ∷ "META" ∷ "GOOGL" ∷ "TSLA" ∷ []

-- `normalize_symbol`
unfoldable pub normalize_symbol : String → String
normalize_symbol symbol = upper (strip symbol)

-- `is_supported_equity_symbol`
unfoldable pub is_supported_equity_symbol : String → Bool
is_supported_equity_symbol symbol = is_in (normalize_symbol symbol) supported_equity_symbols

abbrev pub is_historical : ExperimentMode → Bool
is_historical ExperimentMode.historical_simulation = true
is_historical ExperimentMode.paper_trading = false

abbrev pub is_agentic : StrategyType → Bool
is_agentic StrategyType.agentic_ai = true
is_agentic _ = false

abbrev is_smoke_test : StrategyType → Bool
is_smoke_test StrategyType.paper_trading_smoke_test = true
is_smoke_test _ = false

abbrev is_test_1_min : TradingFrequency → Bool
is_test_1_min TradingFrequency.test_1_min = true
is_test_1_min _ = false

abbrev pub is_intraday_5_min : TradingFrequency → Bool
is_intraday_5_min TradingFrequency.intraday_5_min = true
is_intraday_5_min _ = false

abbrev is_hourly : TradingFrequency → Bool
is_hourly TradingFrequency.hourly = true
is_hourly _ = false

-- `(strategy_type, trading_frequency) in supported_paper_configs`
abbrev is_supported_paper_config : StrategyType → TradingFrequency → Bool
is_supported_paper_config StrategyType.buy_and_hold TradingFrequency.daily = true
is_supported_paper_config StrategyType.moving_average TradingFrequency.daily = true
is_supported_paper_config StrategyType.opening_range_breakout TradingFrequency.intraday_5_min = true
is_supported_paper_config StrategyType.agentic_ai TradingFrequency.daily = true
is_supported_paper_config StrategyType.agentic_ai TradingFrequency.hourly = true
is_supported_paper_config _ _ = false

-- What a check raises, if it raises; the checks after a failed one are not made.
infix 1 refuse◌if◌else◌
abbrev pub refuse◌if◌else◌ : String → Bool → Option String → Option String
refuse message if true else rest = some message
refuse message if false else rest = rest

-- The symbol, the amounts and the dates.
unfoldable pub check_amounts : CreateExperimentRequest → Option String
check_amounts r =
    let asset_symbol = normalize_symbol r.asset_symbol in
    refuse "assetSymbol is not supported."
    if not (is_supported_equity_symbol asset_symbol)
    else refuse "Historical simulation supports SPY only in this release."
    if is_historical r.mode && not (str_eq asset_symbol "SPY")
    else refuse "initialCapital must be positive."
    if Decimal.le r.initial_capital Decimal.nought
    else refuse "startDate must be less than or equal to endDate."
    if ltb r.end_date r.start_date
    else refuse "feeValue must be greater than or equal to 0."
    if Decimal.lt r.fee_value Decimal.nought
    else none

-- The branches on the strategy, for a symbol, a mode and a frequency.
unfoldable pub check_frequency :
    Settings → Bool → StrategyType → ExperimentMode → TradingFrequency → Option String
check_frequency settings is_spy StrategyType.paper_trading_smoke_test mode frequency =
    refuse "Paper trading smoke-test supports SPY only."
    if not is_spy
    else refuse "Paper trading smoke-test strategy is disabled."
    if not settings.paper_trading_test_mode_enabled
    else refuse "Paper trading smoke-test supports PAPER_TRADING mode only."
    if is_historical mode
    else refuse "Paper trading smoke-test supports TEST_1_MIN frequency only."
    if not (is_test_1_min frequency)
    else none
check_frequency settings is_spy StrategyType.opening_range_breakout mode frequency =
    refuse "Opening Range Breakout supports INTRADAY_5_MIN frequency only."
    if not (is_intraday_5_min frequency)
    else none
check_frequency settings is_spy strategy mode TradingFrequency.intraday_5_min =
    some "INTRADAY_5_MIN frequency is supported only for Opening Range Breakout."
check_frequency settings is_spy strategy mode TradingFrequency.test_1_min =
    some "TEST_1_MIN frequency is supported only for paper trading smoke-test."
check_frequency settings is_spy strategy mode TradingFrequency.hourly =
    refuse "HOURLY frequency is supported only for Agentic AI paper trading."
    if not (is_agentic strategy)
    else none
check_frequency settings is_spy strategy mode other = none

-- `model_name or settings.scadsai_default_model`
abbrev model_or_default : Settings → Option String → String
model_or_default settings none = settings.scadsai_default_model
model_or_default settings (some name) =
    if str_eq name "" then settings.scadsai_default_model else name

-- The branch on paper trading. Both agent modes that there are may trade on paper.
unfoldable pub check_paper : Settings → CreateExperimentRequest → Option String
check_paper settings r =
    refuse "Paper trading supports configured equity assets with these combinations: BUY_AND_HOLD DAILY, MOVING_AVERAGE DAILY, AGENTIC_AI DAILY/HOURLY, or OPENING_RANGE_BREAKOUT INTRADAY_5_MIN."
    if not (is_historical r.mode)
      && (not (is_smoke_test r.strategy_type)
          && not (is_supported_paper_config r.strategy_type r.trading_frequency))
    else refuse "Selected ScaDS.AI model is not allowed."
    if not (is_historical r.mode)
      && (is_agentic r.strategy_type
          && not (
              is_in (model_or_default settings r.strategy_config.model_name)
                settings.scadsai_allowed_model_list))
    else none

-- `window is not None and window <= 0`
abbrev is_not_positive : Option ℤ → Bool
is_not_positive none = false
is_not_positive (some (pos n)) = leb n 0
is_not_positive (some (negsuc n)) = true

-- `threshold is not None and (threshold < 0 or threshold > 1)`
abbrev is_no_share : Option Decimal → Bool
is_no_share none = false
is_no_share (some t) = Decimal.lt t Decimal.nought || Decimal.lt (Decimal.of_ℕ 1) t

-- `_validate_risk_config`
abbrev is_no_fallback : Option String → Bool
is_no_fallback none = false
is_no_fallback (some action) = not (str_eq action "HOLD")

unfoldable pub check_config : StrategyConfigInput → Option String
check_config c =
    refuse "movingAverageWindow must be positive when provided."
    if is_not_positive c.moving_average_window
    else refuse "confidenceThreshold must be between 0 and 1 when provided."
    if is_no_share c.confidence_threshold
    else refuse "fallbackAction must be HOLD."
    if is_no_fallback c.fallback_action
    else none

-- One part of the check after another.
abbrev pub and_then : Option String → Option String → Option String
and_then none rest = rest
and_then (some message) rest = some message

-- `validate_create_experiment_request`: the message of the error that it raises, if it does
unfoldable pub validate_create_experiment_request :
    Settings → CreateExperimentRequest → Option String
validate_create_experiment_request settings r =
    let is_spy = str_eq (normalize_symbol r.asset_symbol) "SPY" in
    and_then (check_amounts r) (
      refuse "Agentic AI is supported for PAPER_TRADING mode only."
      if is_historical r.mode && is_agentic r.strategy_type
      else and_then (check_frequency settings is_spy r.strategy_type r.mode r.trading_frequency)
          (and_then (check_paper settings r) (check_config r.strategy_config)))
