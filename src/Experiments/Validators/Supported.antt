-- ===== src/Experiments/Validators/Supported.antt =====
-- What a request that passes the check is like (backend/app/modules/experiments/validators.py).
use text.Mathlib.TextEquality.{eq_iff}
use trading_ai_framework.Prelude.{
  ◌⊎◌, inl, inr, leb→lt, ltb→le, ◌≤◌, ◌≡◌, refl, arith, Option, none, some, Bool, true, false, not,
  ◌&&◌, ◌||◌,
}
use trading_ai_framework.Prelude.Text.{String}
use trading_ai_framework.Prelude.Text.{str_eq}
use trading_ai_framework.Domain.{ExperimentMode, StrategyType, TradingFrequency}
use trading_ai_framework.Decimal
use trading_ai_framework.Decimal.{Decimal, ◌≺◌, ◌≼◌}
use trading_ai_framework.Experiments.Validators.{
  CreateExperimentRequest, Settings, normalize_symbol, is_supported_equity_symbol, check_amounts,
  check_frequency, check_paper, and_then, validate_create_experiment_request, refuse◌if◌else◌,
  is_historical, is_agentic, is_smoke_test, is_test_1_min, is_intraday_5_min, is_hourly,
  is_supported_paper_config,
}

abbrev is_daily : TradingFrequency → Bool
is_daily TradingFrequency.daily = true
is_daily _ = false

-- The frequencies of whole days.
abbrev is_calendar : TradingFrequency → Bool
is_calendar TradingFrequency.daily = true
is_calendar TradingFrequency.weekly = true
is_calendar TradingFrequency.monthly = true
is_calendar _ = false

-- The combinations of mode, strategy and frequency that the backend runs.
abbrev pub supports : ExperimentMode → StrategyType → TradingFrequency → Bool
supports ExperimentMode.historical_simulation StrategyType.buy_and_hold f = is_calendar f
supports ExperimentMode.historical_simulation StrategyType.moving_average f = is_daily f
supports m StrategyType.opening_range_breakout f = is_intraday_5_min f
supports ExperimentMode.paper_trading StrategyType.buy_and_hold f = is_daily f
supports ExperimentMode.paper_trading StrategyType.moving_average f = is_daily f
supports ExperimentMode.paper_trading StrategyType.agentic_ai f = is_daily f || is_hourly f
supports ExperimentMode.paper_trading StrategyType.paper_trading_smoke_test f = is_test_1_min f
supports _ _ _ = false

-- A simulated Moving Average by the week or the month, which is accepted and can never be started.
abbrev pub is_stranded : ExperimentMode → StrategyType → TradingFrequency → Bool
is_stranded ExperimentMode.historical_simulation StrategyType.moving_average
      TradingFrequency.weekly =
    true
is_stranded ExperimentMode.historical_simulation StrategyType.moving_average
      TradingFrequency.monthly =
    true
is_stranded _ _ _ = false

refuse-none :
    (message : String) (b : Bool) {rest : Option String}
    → (refuse message if b else rest) ≡ none
    → (b ≡ false) × (rest ≡ none)
refuse-none m true h = cc
refuse-none m false h = (refl, h)

and_then-none :
    (o : Option String) {rest : Option String} → and_then o rest ≡ none → (o ≡ none) × (rest ≡ none)
and_then-none none h = (refl, h)
and_then-none (some message) h = cc

-- What passing the parts of the check gives, for the combination.
combination :
    (settings : Settings) (is_spy : Bool) (m : ExperimentMode) (t : StrategyType)
    (f : TradingFrequency)
    → (is_historical m && is_agentic t) ≡ false
    → check_frequency settings is_spy t m f ≡ none
    → (not (is_historical m) && (not (is_smoke_test t) && not (is_supported_paper_config t f)))
      ≡ false
    → (supports m t f || is_stranded m t f) ≡ true
unfolding check_frequency
combination settings is_spy m t f a b c = ground arith

-- A request with a symbol that can be traded, SPY in a simulation, money to begin with, dates in
-- order, fees that are not negative, and a combination that is run or is stranded.
pub record IsAdmissible (r : CreateExperimentRequest) : Type 0 where
  pub symbol : is_supported_equity_symbol (normalize_symbol r.asset_symbol) ≡ true
  pub spy : (r.mode ≡ ExperimentMode.paper_trading) ⊎ (normalize_symbol r.asset_symbol ≡ "SPY")
  pub capital : Decimal.nought ≺ r.initial_capital
  pub dates : r.start_date ≤ r.end_date
  pub fee : Decimal.nought ≼ r.fee_value
  pub combination :
      (supports r.mode r.strategy_type r.trading_frequency
        || is_stranded r.mode r.strategy_type r.trading_frequency)
      ≡ true

not-false : (b : Bool) → not b ≡ false → b ≡ true
not-false true h = refl
not-false false h = cc

paper_or_spy :
    (m : ExperimentMode) (symbol : String)
    → (is_historical m && not (str_eq symbol "SPY")) ≡ false
    → (m ≡ ExperimentMode.paper_trading) ⊎ (symbol ≡ "SPY")
paper_or_spy ExperimentMode.paper_trading symbol h = inl refl
paper_or_spy ExperimentMode.historical_simulation symbol h =
    inr ((eq_iff symbol "SPY").0 (not-false _ h))

module _ (settings : Settings) (r : CreateExperimentRequest) where
  -- A request that passes the check has a symbol that can be traded, SPY in a simulation, a capital
  -- above zero, dates in order and a fee that is not negative; its mode, strategy and frequency are a
  -- combination that is run, or a simulated Moving Average by the week or the month.
  pub validate_create_experiment_request-IsAdmissible :
      validate_create_experiment_request settings r ≡ none → IsAdmissible r
  unfolding validate_create_experiment_request check_amounts check_paper
  validate_create_experiment_request-IsAdmissible h =
      let (amounts, h₁) = and_then-none (check_amounts r) h in
      let (traded, a₁) = refuse-none _ _ amounts in
      let (only_spy, a₂) = refuse-none _ _ a₁ in
      let (positive, a₃) = refuse-none _ _ a₂ in
      let (ordered, a₄) = refuse-none _ _ a₃ in
      let (fee, a₅) = refuse-none _ _ a₄ in
      let (agent, h₂) = refuse-none _ _ h₁ in
      let (frequency, h₃) = and_then-none _ h₂ in
      let (paper, h₄) = and_then-none (check_paper settings r) h₃ in
      let (config, p₁) = refuse-none _ _ paper in
      record {
        symbol = not-false _ traded;
        spy = paper_or_spy r.mode (normalize_symbol r.asset_symbol) only_spy;
        capital = leb→lt _ _ positive;
        dates = ltb→le _ _ ordered;
        fee = ltb→le _ _ fee;
        combination =
            combination settings _ r.mode r.strategy_type r.trading_frequency agent frequency
              config;
      }
