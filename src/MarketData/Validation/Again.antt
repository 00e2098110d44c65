-- ===== src/MarketData/Validation/Again.antt =====
-- The check of a session's bars up to a time, which stands beside the check of whole sessions in
-- backend/app/modules/market_data/intraday_validation.py.
use mathlib.Core.Path.{subst}
use trading_ai_framework.Prelude.{
  ℕ, ◌≡◌, ◌<◌, sym, ap, inl, inr, List, [], ◌∷◌, leb, All, Bool-cases, if◌then◌else◌,
}
use trading_ai_framework.MarketData.Calendar.{TradingSession}
use trading_ai_framework.MarketData.Calendar.Sessions.{IsSession}
use trading_ai_framework.MarketData.Intraday.{IntradayBar}
use trading_ai_framework.Execution.Errors.{ok, ok_inj}
use trading_ai_framework.MarketData.Validation.{
  timestamps, starts_through, validate_expected, validate_intraday_bars_until,
}
use trading_ai_framework.MarketData.Validation.Ascending.{Ascending, starts-Ascending}
use trading_ai_framework.MarketData.Validation.Complete.{check_bars-timestamps}

starts_through-All :
    (P : ℕ → Type 0) (through : ℕ) (ts : List ℕ) → All P ts → All P (starts_through through ts)
unfolding starts_through
starts_through-All P through [] all = tt
starts_through-All P through (t ∷ ts) (p, all) = elim (Bool-cases (leb t through)) [
  | inl e ↦ rw e (p, starts_through-All P through ts all)
  | inr e ↦ rw e (starts_through-All P through ts all)
]

starts_through-Ascending :
    (through : ℕ) (ts : List ℕ) → Ascending ts → Ascending (starts_through through ts)
unfolding starts_through
starts_through-Ascending through [] a = tt
starts_through-Ascending through (t ∷ ts) (above, a) = elim (Bool-cases (leb t through)) [
  | inl e ↦
      rw e (starts_through-All (λ x. t < x) through ts above, starts_through-Ascending through ts a)
  | inr e ↦ rw e (starts_through-Ascending through ts a)
]

expected-timestamps :
    (expected : List ℕ) (bars accepted : List IntradayBar)
    → Ascending expected
    → validate_expected expected bars ≡ ok accepted
    → timestamps accepted ≡ expected
unfolding validate_expected
expected-timestamps [] bars accepted ascends h = ap timestamps (sym (ok_inj h))
expected-timestamps (t ∷ expected) bars accepted ascends h =
    check_bars-timestamps (t ∷ expected) bars accepted ascends h

-- The bars that the check of a session up to a time lets through are one for every start time of the
-- session that is not after that time, in their order.
pub validate_intraday_bars_until-IsComplete :
    (closed : List ℕ) (from to : ℕ) (session : TradingSession) (through : ℕ)
    (bars accepted : List IntradayBar)
    → IsSession closed from to session
    → validate_intraday_bars_until session through bars ≡ ok accepted
    → timestamps accepted ≡ starts_through through session.expected_bar_start_times
unfolding validate_intraday_bars_until
validate_intraday_bars_until-IsComplete closed from to session through bars accepted is h =
    expected-timestamps _ bars accepted
      (starts_through-Ascending through _ (
        subst Ascending (sym is.bars)
          (starts-Ascending (if session.is_early_close then 42 else 78) _)))
      h
