-- ===== src/Execution/Metrics.antt =====
-- The figures of a run: backend/app/modules/execution/metrics.py.
pub mod Drawdown
pub mod Deepest
use trading_ai_framework.Prelude.{
  ℕ, Bool, true, false, Option, none, some, List, [], ◌∷◌, ◌++◌, if◌then◌else◌,
}
use trading_ai_framework.Decimal
use trading_ai_framework.Decimal.{Decimal}

pub record MetricResult : Type 0 where
  pub total_return : Decimal
  pub profit_loss : Decimal
  pub number_of_trades : ℕ
  pub max_drawdown : Decimal
  pub buy_and_hold_return : Decimal
  pub difference_to_buy_and_hold : Decimal

-- `if peak is None or value > peak: peak = value`
unfoldable pub raise_peak : Option Decimal → Decimal → Decimal
raise_peak none value = value
raise_peak (some peak) value = if Decimal.lt peak value then value else peak

-- `((value - peak) / peak).quantize(Decimal("0.00000001"))`
abbrev pub drawdown : Decimal → Decimal → Decimal
drawdown value peak = Decimal.quantized_div 8 (Decimal.sub value peak) peak

-- The rest of the loop's body: the drawdown from a positive peak, if it is deeper.
unfoldable pub deepen : Decimal → Decimal → Decimal → Decimal
deepen deepest peak value =
    if Decimal.lt Decimal.nought peak
    then (if Decimal.lt (drawdown value peak) deepest then drawdown value peak else deepest)
    else deepest

-- The loop of `_max_drawdown` from a peak and the deepest drawdown so far.
unfoldable pub max_drawdown_from : Option Decimal → Decimal → List Decimal → Decimal
max_drawdown_from peak deepest [] = deepest
max_drawdown_from peak deepest (value ∷ values) =
    let top = raise_peak peak value in
    max_drawdown_from (some top) (deepen deepest top value) values

unfoldable pub max_drawdown : List Decimal → Decimal
max_drawdown values = max_drawdown_from none Decimal.nought values

-- `BasicMetricCalculator.calculate`; `none` is the division by a capital of zero.
unfoldable pub calculate : Decimal → Decimal → List Decimal → ℕ → Option MetricResult
calculate initial_capital current_portfolio_value previous_portfolio_values number_of_trades =
    let profit_loss = Decimal.quantize 4 (Decimal.sub current_portfolio_value initial_capital) in
    let total_return = Decimal.quantized_div 8 profit_loss initial_capital in
    if Decimal.is_zero initial_capital
    then none
    else some (record {
      total_return = total_return;
      profit_loss = profit_loss;
      number_of_trades = number_of_trades;
      max_drawdown = max_drawdown (previous_portfolio_values ++ (current_portfolio_value ∷ []));
      buy_and_hold_return = total_return;
      difference_to_buy_and_hold = Decimal.nought;
    })
