-- ===== src/MarketData/Validation.antt =====
-- The checks of intraday bars: backend/app/modules/market_data/intraday_validation.py.
pub mod Ascending
pub mod Complete
pub mod Again
use trading_ai_framework.Prelude.{
  ℕ, Bool, false, not, ◌||◌, List, [], ◌∷◌, ◌++◌, map, leb, if◌then◌else◌,
}
use trading_ai_framework.MarketData.Calendar.{TradingSession, is_among}
use trading_ai_framework.MarketData.Intraday.{IntradayBar}
use trading_ai_framework.Execution.Errors.{Result, ok, err, market_data_missing, market_data_failed}

abbrev pub timestamps : List IntradayBar → List ℕ
timestamps bars = map (λ (b : IntradayBar). b.timestamp) bars

-- The start times that the sessions expect.
unfoldable pub expected_of : List TradingSession → List ℕ
expected_of [] = []
expected_of (s ∷ sessions) = s.expected_bar_start_times ++ expected_of sessions

-- The bars that are expected.
unfoldable pub filtered : List ℕ → List IntradayBar → List IntradayBar
unfolding is_among
filtered expected [] = []
filtered expected (b ∷ bars) =
    let rest = filtered expected bars in if is_among b.timestamp expected then b ∷ rest else rest

-- A start time that is counted more than once.
unfoldable pub has_duplicate : List ℕ → Bool
unfolding is_among
has_duplicate [] = false
has_duplicate (t ∷ ts) = is_among t ts || has_duplicate ts

-- An expected start time that no bar has.
unfoldable pub has_missing : List ℕ → List ℕ → Bool
unfolding is_among
has_missing [] actual = false
has_missing (t ∷ expected) actual = not (is_among t actual) || has_missing expected actual

unfoldable pub insert_by_timestamp : IntradayBar → List IntradayBar → List IntradayBar
insert_by_timestamp b [] = b ∷ []
insert_by_timestamp b (c ∷ bars) =
    let later = c ∷ insert_by_timestamp b bars in
    if leb b.timestamp c.timestamp then b ∷ c ∷ bars else later

unfoldable pub sort_by_timestamp : List IntradayBar → List IntradayBar
unfolding insert_by_timestamp
sort_by_timestamp [] = []
sort_by_timestamp (b ∷ bars) = insert_by_timestamp b (sort_by_timestamp bars)

-- The checks that both functions make of the bars with an expected start time.
unfoldable pub check_bars : List ℕ → List IntradayBar → Result (List IntradayBar)
unfolding has_duplicate has_missing sort_by_timestamp
check_bars expected bars =
    if has_duplicate (timestamps bars)
    then err market_data_failed
    else if has_missing expected (timestamps bars)
    then err market_data_missing
    else ok (sort_by_timestamp bars)

-- `validate_intraday_bars`
unfoldable pub validate_intraday_bars :
    List TradingSession → List IntradayBar → Result (List IntradayBar)
unfolding check_bars filtered expected_of
validate_intraday_bars [] bars = ok []
validate_intraday_bars (s ∷ sessions) bars =
    check_bars (expected_of (s ∷ sessions)) (filtered (expected_of (s ∷ sessions)) bars)

-- The start times of a session that are not after a time.
unfoldable pub starts_through : ℕ → List ℕ → List ℕ
starts_through through [] = []
starts_through through (t ∷ ts) =
    let rest = starts_through through ts in if leb t through then t ∷ rest else rest

-- The rest of `validate_intraday_bars_until`, with the expected start times.
validate_expected : List ℕ → List IntradayBar → Result (List IntradayBar)
unfolding check_bars filtered
validate_expected [] bars = ok []
validate_expected (t ∷ expected) bars = check_bars (t ∷ expected) (filtered (t ∷ expected) bars)

-- `validate_intraday_bars_until`
unfoldable pub validate_intraday_bars_until :
    TradingSession → ℕ → List IntradayBar → Result (List IntradayBar)
unfolding validate_expected starts_through
validate_intraday_bars_until session through bars =
    validate_expected (starts_through through session.expected_bar_start_times) bars
