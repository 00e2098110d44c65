-- ===== src/MarketData/Calendar/Sessions.antt =====
-- Which days have a session, and its bars (backend/app/modules/market_data/trading_calendar.py).
use trading_ai_framework.Prelude.{
  ℕ, zero, suc, ◌+◌, ◌-◌, ◌*◌, ◌≡◌, ◌≤◌, ◌∙◌, ap, refl, Bool, true, false, ◌&&◌, ◌||◌, List, [],
  ◌∷◌, map, arith, leb, ltb, ◌==◌, All, Bool-cases, inl, inr, if◌then◌else◌,
}
use trading_ai_framework.Times.{combine, time, year_of}
use trading_ai_framework.MarketData.Calendar.{
  TradingSession, starts_from, expected_bar_start_times, holidays, sessions_between, session_on,
  sessions_from, is_open, is_among, bar_interval,
}

-- So many starts, five minutes apart.
abbrev pub starts : ℕ → ℕ → List ℕ
starts zero current = []
starts (suc n) current = current ∷ starts n (current + bar_interval)

pub starts_from-eq :
    (fuel n current close : ℕ)
    → n ≤ fuel
    → close ≡ current + n * bar_interval
    → starts_from fuel current close ≡ starts n current
unfolding starts_from
starts_from-eq zero zero current close h e = refl
starts_from-eq zero (suc n) current close h e = absurd (omega arith)
starts_from-eq (suc fuel) zero current close h e = ground arith
starts_from-eq (suc fuel) (suc n) current close h e =
    ground (arith, starts_from-eq fuel n (current + bar_interval) close)

-- A session: an open day, of 78 bars from the regular opening on, or of 42 if it closes early.
pub record IsSession (closed : List ℕ) (from to : ℕ) (s : TradingSession) : Type 0 where
  pub begun : from ≤ s.session_date
  pub not_after : s.session_date ≤ to
  pub open_day : is_open closed s.session_date ≡ true
  pub opens : s.open_time ≡ time 9 30
  pub closes : s.close_time ≡ (if s.is_early_close then time 13 0 else time 16 0)
  pub bars :
      s.expected_bar_start_times
      ≡ starts (if s.is_early_close then 42 else 78) (combine s.session_date s.open_time)

session_on-IsSession :
    (closed early : List ℕ) (from to d : ℕ)
    → from ≤ d
    → d ≤ to
    → is_open closed d ≡ true
    → IsSession closed from to (session_on early d)
unfolding session_on expected_bar_start_times
session_on-IsSession closed early from to d h k o = elim (Bool-cases (is_among d early)) [
  | inl e ↦ rw e (record {
    begun = h;
    not_after = k;
    open_day = o;
    opens = refl;
    closes = refl;
    bars = starts_from-eq 288 42 _ _ (omega arith) (omega arith);
  })
  | inr e ↦ rw e (record {
    begun = h;
    not_after = k;
    open_day = o;
    opens = refl;
    closes = refl;
    bars = starts_from-eq 288 78 _ _ (omega arith) (omega arith);
  })
]

-- A day is among the open days from `current` on if it is `current`, when that is open, or a later one.
module _ (opens : ℕ → Bool) (current left d : ℕ) where
  abbrev later : Bool
  later = leb (current + 1) d && (ltb d (current + 1 + left) && opens d)

  days_open :
      opens current ≡ true
      → (d == current) || later ≡ (leb current d && (ltb d (current + suc left) && opens d))
  days_open h = elim (Bool-cases (d == current)) [
    | inl e ↦ let same : d ≡ current = ground arith in rw same (ground arith)
    | inr e ↦ ground arith
  ]

  days_closed :
      opens current ≡ false → later ≡ (leb current d && (ltb d (current + suc left) && opens d))
  days_closed h = elim (Bool-cases (d == current)) [
    | inl e ↦ let same : d ≡ current = ground arith in rw same (ground arith)
    | inr e ↦ ground arith
  ]

module _ (closed early : List ℕ) (from to : ℕ) where
  sessions_from-IsSession :
      (left current : ℕ)
      → from ≤ current
      → current + left ≡ to + 1
      → All (IsSession closed from to) (sessions_from closed early left current)
  unfolding sessions_from
  sessions_from-IsSession zero current h e = tt
  sessions_from-IsSession (suc left) current h e =
      let rest = sessions_from-IsSession left (current + 1) (omega arith) (omega arith) in
      elim (Bool-cases (is_open closed current)) [
        | inl o ↦ rw o (session_on-IsSession closed early from to current h (omega arith) o, rest)
        | inr o ↦ rw o rest
      ]

  -- The days of the sessions, of so many days.
  days-eq :
      (left current d : ℕ)
      → is_among d
          (map (λ (s : TradingSession). s.session_date) (sessions_from closed early left current))
        ≡ (leb current d && (ltb d (current + left) && is_open closed d))
  unfolding sessions_from is_among session_on
  days-eq zero current d = ground arith
  days-eq (suc left) current d = elim (Bool-cases (is_open closed current)) [
    | inl o ↦ rw o (
        ap (λ (b : Bool). (d == current) || b) (days-eq left (current + 1) d)
        ∙ days_open (is_open closed) current left d o)
    | inr o ↦ rw o (days-eq left (current + 1) d ∙ days_closed (is_open closed) current left d o)
  ]

no_days : (from to d : ℕ) (o : Bool) → ltb to from ≡ true → false ≡ (leb from d && (leb d to && o))
no_days from to d o h = ground arith

all_days :
    (from to d : ℕ) (o : Bool)
    → ltb to from ≡ false
    → (leb from d && (ltb d (from + (to + 1 - from)) && o)) ≡ (leb from d && (leb d to && o))
all_days from to d o h = ground arith

module _ (from to : ℕ) where
  abbrev closed_days : List ℕ
  closed_days = holidays (year_of from) (year_of to)

  -- Every session between two dates is of an open day between them, opens at 9:30 and has a bar for
  -- every five minutes until it closes at 16:00, or at 13:00 if it closes early.
  pub sessions_between-IsSession : All (IsSession closed_days from to) (sessions_between from to)
  unfolding sessions_between
  sessions_between-IsSession = elim (Bool-cases (ltb to from)) [
    | inl e ↦ rw e tt
    | inr e ↦
        rw e (sessions_from-IsSession closed_days _ from to _ from (omega arith) (ground arith))
  ]

  -- A day has a session between two dates exactly if it is one of them and is open: a weekday that is
  -- no holiday.
  pub sessions_between-days :
      (d : ℕ)
      → is_among d (map (λ (s : TradingSession). s.session_date) (sessions_between from to))
        ≡ (leb from d && (leb d to && is_open closed_days d))
  unfolding sessions_between
  sessions_between-days d = elim (Bool-cases (ltb to from)) [
    | inl e ↦ rw e (no_days from to d _ e)
    | inr e ↦ rw e (days-eq closed_days _ from to _ from d ∙ all_days from to d _ e)
  ]
