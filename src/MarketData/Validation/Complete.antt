-- ===== src/MarketData/Validation/Complete.antt =====
-- What the checks of intraday bars let through
-- (backend/app/modules/market_data/intraday_validation.py).
use mathlib.Core.Path.{subst}
use trading_ai_framework.Prelude.{
  ℕ, zero, suc, ◌+◌, ◌*◌, ◌≡◌, ◌<◌, ◌≤◌, refl, sym, ap, ◌∙◌, inl, inr, Bool, true, false, List, [],
  ◌∷◌, ◌++◌, arith, leb, ltb, ◌==◌, All, Bool-cases, if◌then◌else◌,
}
use trading_ai_framework.Times.{combine, time, day}
use trading_ai_framework.MarketData.Calendar.{
  TradingSession, is_among, is_open, session_on, sessions_from, sessions_between,
  expected_bar_start_times,
}
use trading_ai_framework.MarketData.Calendar.Sessions.{starts, starts_from-eq}
use trading_ai_framework.MarketData.Intraday.{IntradayBar}
use trading_ai_framework.Execution.Errors.{Error, ok, err, ok_inj, err≢ok}
use trading_ai_framework.MarketData.Validation.{
  timestamps, expected_of, filtered, has_duplicate, has_missing, insert_by_timestamp,
  sort_by_timestamp, check_bars, validate_intraday_bars,
}
use trading_ai_framework.MarketData.Validation.Ascending.{
  Ascending, Ascending-unique, Ascending-append, insert, sort, insert-Ascending, is_among-sort,
  starts-All, starts-Ascending, All-map, All-append,
}

timestamps-insert :
    (b : IntradayBar) (bars : List IntradayBar)
    → timestamps (insert_by_timestamp b bars) ≡ insert b.timestamp (timestamps bars)
unfolding insert_by_timestamp insert
timestamps-insert b [] = refl
timestamps-insert b (c ∷ bars) = elim (Bool-cases (leb b.timestamp c.timestamp)) [
  | inl e ↦ rw e refl
  | inr e ↦ rw e (ap (λ (l : List ℕ). c.timestamp ∷ l) (timestamps-insert b bars))
]

timestamps-sort :
    (bars : List IntradayBar) → timestamps (sort_by_timestamp bars) ≡ sort (timestamps bars)
unfolding sort_by_timestamp sort
timestamps-sort [] = refl
timestamps-sort (b ∷ bars) =
    timestamps-insert b (sort_by_timestamp bars) ∙ ap (insert b.timestamp) (timestamps-sort bars)

sort-Ascending : (xs : List ℕ) → has_duplicate xs ≡ false → Ascending (sort xs)
unfolding sort has_duplicate
sort-Ascending [] h = tt
sort-Ascending (x ∷ xs) h =
    insert-Ascending x (sort xs) (is_among-sort x xs ∙ ground arith)
      (sort-Ascending xs (ground arith))

-- Every bar that is kept is expected.
is_among-filtered :
    (expected : List ℕ) (n : ℕ) (bars : List IntradayBar)
    → is_among n (timestamps (filtered expected bars)) ≡ true
    → is_among n expected ≡ true
unfolding filtered is_among
is_among-filtered expected n [] h = absurd (ground (arith, h))
is_among-filtered expected n (b ∷ bars) h = elim (Bool-cases (is_among b.timestamp expected)) [
  | inl e ↦ elim (Bool-cases (n == b.timestamp)) [
    | inl same ↦
        let equal : n ≡ b.timestamp = ground arith in ap (λ (x : ℕ). is_among x expected) equal ∙ e
    | inr apart ↦ is_among-filtered expected n bars (ground arith)
  ]
  | inr e ↦ is_among-filtered expected n bars (ground arith)
]

-- Every start time that is expected has a bar, if none is missing.
none_missing :
    (n : ℕ) (expected actual : List ℕ)
    → has_missing expected actual ≡ false
    → is_among n expected ≡ true
    → is_among n actual ≡ true
unfolding has_missing is_among
none_missing n [] actual h k = absurd (ground (arith, k))
none_missing n (t ∷ expected) actual h k = elim (Bool-cases (n == t)) [
  | inl e ↦ let equal : n ≡ t = ground arith in rw equal (ground arith)
  | inr e ↦ none_missing n expected actual (ground arith) (ground arith)
]

agree : (a b : Bool) → (a ≡ true → b ≡ true) → (b ≡ true → a ≡ true) → a ≡ b
agree true b f g = sym (f refl)
agree false true f g = g refl
agree false false f g = refl

passes :
    (d m : Bool) (x y : Error) (sorted accepted : List IntradayBar)
    → (if d then err x else if m then err y else ok sorted) ≡ ok accepted
    → (d ≡ false) × (m ≡ false) × (sorted ≡ accepted)
passes true m x y sorted accepted h = absurd (err≢ok h)
passes false true x y sorted accepted h = absurd (err≢ok h)
passes false false x y sorted accepted h = (refl, refl, ok_inj h)

-- The bars that the checks let through have the expected start times, each once and in order.
pub check_bars-timestamps :
    (expected : List ℕ) (bars accepted : List IntradayBar)
    → Ascending expected
    → check_bars expected (filtered expected bars) ≡ ok accepted
    → timestamps accepted ≡ expected
unfolding check_bars
check_bars-timestamps expected bars accepted ascends h =
    let kept : List IntradayBar = filtered expected bars in
    let (once, none, same) = passes _ _ _ _ _ accepted h in
    ap timestamps (sym same)
    ∙ timestamps-sort kept
    ∙ Ascending-unique (sort (timestamps kept)) expected (sort-Ascending (timestamps kept) once)
        ascends
        (λ n.
          is_among-sort n (timestamps kept)
          ∙ agree _ _ (is_among-filtered expected n bars)
              (none_missing n expected (timestamps kept) none))

session_on-starts :
    (early : List ℕ) (d : ℕ)
    → (n : ℕ) × (n ≤ 78)
      × ((session_on early d).expected_bar_start_times ≡ starts n (combine d (time 9 30)))
unfolding session_on expected_bar_start_times
session_on-starts early d = elim (Bool-cases (is_among d early)) [
  | inl e ↦ rw e (42, omega arith, starts_from-eq 288 42 _ _ (omega arith) (omega arith))
  | inr e ↦ rw e (78, omega arith, starts_from-eq 288 78 _ _ (omega arith) (omega arith))
]

-- The start times of the sessions of so many days ascend.
module _ (closed early : List ℕ) where
  abbrev From : ℕ → List ℕ → Type 0
  From bound ts = Ascending ts × All (λ t. bound ≤ t) ts

  session-From :
      (n d : ℕ) (later : List ℕ)
      → n ≤ 78
      → From ((d + 1) * day) later
      → From (d * day) (starts n (combine d (time 9 30)) ++ later)
  session-From n d later h (ascends, from) =
      let within =
        starts-All (d * day) ((d + 1) * day) n (combine d (time 9 30)) (omega arith)
          (omega arith) in
      (
        Ascending-append ((d + 1) * day) (starts n (combine d (time 9 30))) later
            (starts-Ascending n _) (All-map _ (λ x. x < (d + 1) * day) _ (λ x (p, q). q) within)
            ascends from,
        All-append (λ t. d * day ≤ t) (starts n (combine d (time 9 30))) later
            (All-map _ (λ x. d * day ≤ x) _ (λ x (p, q). p) within)
            (All-map (λ t. (d + 1) * day ≤ t) (λ t. d * day ≤ t) later (λ x p. omega (arith, p))
              from),
      )

  sessions_from-From :
      (left d : ℕ) → From (d * day) (expected_of (sessions_from closed early left d))
  unfolding sessions_from expected_of
  sessions_from-From zero d = (tt, tt)
  sessions_from-From (suc left) d =
      let rest = sessions_from-From left (d + 1) in
      elim (Bool-cases (is_open closed d)) [
        | inl o ↦
            let (n, few, same) = session_on-starts early d in
            rw o (
              subst
                (λ ts. From (d * day) (ts ++ expected_of (sessions_from closed early left (d + 1))))
                (sym same) (session-From n d _ few rest))
        | inr o ↦ rw o (
          rest.0,
          All-map (λ t. (d + 1) * day ≤ t) (λ t. d * day ≤ t) _ (λ x p. omega (arith, p)) rest.1,
        )
      ]

pub expected_of-Ascending : (from to : ℕ) → Ascending (expected_of (sessions_between from to))
unfolding sessions_between expected_of
expected_of-Ascending from to = elim (Bool-cases (ltb to from)) [
  | inl e ↦ rw e tt
  | inr e ↦ rw e (sessions_from-From _ _ _ from).0
]

validated-timestamps :
    (sessions : List TradingSession) (bars accepted : List IntradayBar)
    → Ascending (expected_of sessions)
    → validate_intraday_bars sessions bars ≡ ok accepted
    → timestamps accepted ≡ expected_of sessions
unfolding validate_intraday_bars expected_of
validated-timestamps [] bars accepted ascends h = ap timestamps (sym (ok_inj h))
validated-timestamps (s ∷ sessions) bars accepted ascends h =
    check_bars-timestamps (expected_of (s ∷ sessions)) bars accepted ascends h

-- The bars that the check of whole sessions lets through, for the sessions between two dates, are one
-- for every start time that these sessions expect, in their order: none is missing, doubled or outside.
pub validate_intraday_bars-IsComplete :
    (from to : ℕ) (bars accepted : List IntradayBar)
    → validate_intraday_bars (sessions_between from to) bars ≡ ok accepted
    → timestamps accepted ≡ expected_of (sessions_between from to)
validate_intraday_bars-IsComplete from to bars accepted h =
    validated-timestamps (sessions_between from to) bars accepted (expected_of-Ascending from to) h
