-- ===== src/MarketData/Calendar/Weekdays.antt =====
-- The weekdays that the holidays fall on (backend/app/modules/market_data/trading_calendar.py).
use trading_ai_framework.Prelude.{
  ℕ, zero, suc, ◌+◌, ◌-◌, ◌*◌, ◌%◌, ◌≡◌, ◌≤◌, ◌<◌, true, inl, inr, arith, ◌==◌, Bool-cases,
  if◌then◌else◌,
}
use trading_ai_framework.Times.{weekday, date}
use trading_ai_framework.MarketData.Calendar.{seek_forward, seek_back, nth_weekday, last_weekday}

-- A day of a weekday, not before one day and not after another.
pub record IsWeekday (w from to d : ℕ) : Type 0 where
  pub on : weekday d ≡ w
  pub begun : from ≤ d
  pub not_after : d ≤ to

seek_forward-IsWeekday :
    (fuel w current k : ℕ)
    → k < fuel
    → weekday (current + k) ≡ w
    → IsWeekday w current (current + k) (seek_forward fuel w current)
unfolding seek_forward
seek_forward-IsWeekday zero w current k h e = absurd (omega (arith, h))
seek_forward-IsWeekday (suc fuel) w current zero h e =
    let here : (weekday current == w) ≡ true = ground arith in
    rw here (record { on = ground arith; begun = omega arith; not_after = omega arith })
seek_forward-IsWeekday (suc fuel) w current (suc k) h e = elim (Bool-cases (weekday current == w)) [
  | inl here ↦ rw here (record { on = ground arith; begun = omega arith; not_after = omega arith })
  | inr on ↦
      let found = seek_forward-IsWeekday fuel w (current + 1) k (omega arith) (omega (arith, e)) in
      rw on (record {
        on = found.on;
        begun = omega (arith, found.begun);
        not_after = omega (arith, found.not_after);
      })
]

seek_back-IsWeekday :
    (fuel w current k : ℕ)
    → k < fuel
    → k ≤ current
    → weekday (current - k) ≡ w
    → IsWeekday w (current - k) current (seek_back fuel w current)
unfolding seek_back
seek_back-IsWeekday zero w current k h b e = absurd (omega (arith, h))
seek_back-IsWeekday (suc fuel) w current zero h b e =
    let here : (weekday current == w) ≡ true = ground arith in
    rw here (record { on = ground arith; begun = omega arith; not_after = omega arith })
seek_back-IsWeekday (suc fuel) w current (suc k) h b e = elim (Bool-cases (weekday current == w)) [
  | inl here ↦ rw here (record { on = ground arith; begun = omega arith; not_after = omega arith })
  | inr on ↦
      let found =
        seek_back-IsWeekday fuel w (current - 1) k (omega arith) (omega arith) (omega (arith, e)) in
      rw on (record {
        on = found.on;
        begun = omega (arith, found.begun);
        not_after = omega (arith, found.not_after);
      })
]

-- The n-th of a weekday in a month is of that weekday, and in the n-th seven days of the month.
pub nth_weekday-IsWeekday :
    (year month w occurrence : ℕ)
    → w < 7
    → 1 ≤ occurrence
    → IsWeekday w
        (date year month (7 * (occurrence - 1) + 1))
        (date year month (7 * occurrence))
        (nth_weekday year month w occurrence)
unfolding nth_weekday date
nth_weekday-IsWeekday year month w occurrence h o =
    let first : ℕ = date year month 1 in
    let k : ℕ = (w + 7 - weekday first) % 7 in
    let found = seek_forward-IsWeekday 7 w first k (omega arith) (omega arith) in
    record {
      on = omega (arith, found.on);
      begun = omega (arith, found.begun);
      not_after = omega (arith, found.not_after);
    }

-- The last day of a month.
abbrev pub month_end : ℕ → ℕ → ℕ
month_end year month = if month == 12 then date year 12 31 else date year (month + 1) 1 - 1

month_end-late : (year month : ℕ) → 1 ≤ month → 7 ≤ month_end year month
unfolding date
month_end-late year month h = ground arith

-- The last of a weekday in a month is of that weekday, and in the last seven days of the month.
pub last_weekday-IsWeekday :
    (year month w : ℕ)
    → 1 ≤ month
    → w < 7
    → IsWeekday w (month_end year month - 6) (month_end year month) (last_weekday year month w)
unfolding last_weekday
last_weekday-IsWeekday year month w m h =
    let last : ℕ = month_end year month in
    let late : 7 ≤ last = month_end-late year month m in
    let k : ℕ = (weekday last + 7 - w) % 7 in
    let found =
      seek_back-IsWeekday 7 w last k (omega arith) (omega (arith, late)) (omega (arith, late)) in
    record { on = found.on; begun = omega (arith, found.begun); not_after = found.not_after }
