-- ===== src/MarketData/Hourly/Windows.antt =====
-- The hourly windows of a session (backend/app/modules/market_data/hourly_bars.py).
use trading_ai_framework.Prelude.{
  ℕ, zero, suc, ◌+◌, ◌*◌, ◌≡◌, ◌≤◌, refl, sym, ap, ◌∙◌, List, [], ◌∷◌, arith, inl, inr, Bool-cases,
  length, if◌then◌else◌,
}
use trading_ai_framework.Times.{minute, combine}
use trading_ai_framework.MarketData.Calendar.{TradingSession, bar_interval}
use trading_ai_framework.MarketData.Calendar.Sessions.{starts, IsSession}
use trading_ai_framework.MarketData.Hourly.{HourlyWindow, windows_from, hourly_windows_for_session}

-- So many windows of an hour, each from its first to its last start.
abbrev pub hours : ℕ → ℕ → List HourlyWindow
hours zero t = []
hours (suc n) t = record { start = t; end = t + 55 * minute } ∷ hours n (t + 60 * minute)

abbrev add_12 : ℕ → ℕ
add_12 m = suc (suc (suc (suc (suc (suc (suc (suc (suc (suc (suc (suc m)))))))))))

window-eq :
    (fuel m t u v w : ℕ) (windows : List HourlyWindow)
    → windows ≡ (record { start = t; end = u } ∷ windows_from fuel (starts m v))
    → u ≡ t + 55 * minute
    → v ≡ t + 60 * minute
    → windows ≡ (
        record { start = t; end = t + 55 * minute }
        ∷ windows_from fuel (starts m (t + 60 * minute)))
window-eq fuel m t u v w windows g e f = rw (sym e) (rw (sym f) g)

-- The first window of twelve starts and more.
window_step :
    (fuel m t : ℕ)
    → windows_from (suc fuel) (starts (add_12 m) t) ≡ (
        record { start = t; end = t + 55 * minute }
        ∷ windows_from fuel (starts m (t + 60 * minute)))
unfolding windows_from
window_step fuel m t = window-eq fuel m t _ _ t _ refl (omega arith) (omega arith)

windows_from-eq : (fuel n t : ℕ) → n ≤ fuel → windows_from fuel (starts (n * 12 + 6) t) ≡ hours n t
unfolding windows_from
windows_from-eq zero zero t h = refl
windows_from-eq zero (suc n) t h = absurd (omega arith)
windows_from-eq (suc fuel) zero t h = refl
windows_from-eq (suc fuel) (suc n) t h =
    let twelve : suc n * 12 + 6 ≡ add_12 (n * 12 + 6) = omega arith in
    ap (λ k. windows_from (suc fuel) (starts k t)) twelve
    ∙ window_step fuel (n * 12 + 6) t
    ∙ ap (λ ws. record { start = t; end = t + 55 * minute } ∷ ws)
        (windows_from-eq fuel n (t + 60 * minute) (omega arith))

length-starts : (n t : ℕ) → length (starts n t) ≡ n
length-starts zero t = refl
length-starts (suc n) t = ap suc (length-starts n (t + bar_interval))

all_windows :
    (n t : ℕ) → windows_from (length (starts (n * 12 + 6) t)) (starts (n * 12 + 6) t) ≡ hours n t
all_windows n t =
    windows_from-eq (length (starts (n * 12 + 6) t)) n t
      (omega (arith, length-starts (n * 12 + 6) t))

-- The windows of a session are six hours from its opening on, or three if it closes early, each an hour
-- after the one before and of twelve bars; the bars that are left, half an hour, are in none.
pub hourly_windows_for_session-hours :
    (closed : List ℕ) (from to : ℕ) (session : TradingSession)
    → IsSession closed from to session
    → hourly_windows_for_session session
      ≡ hours
          (if session.is_early_close then 3 else 6)
          (combine session.session_date session.open_time)
unfolding hourly_windows_for_session
hourly_windows_for_session-hours closed from to session is =
    elim (Bool-cases session.is_early_close) [
      | inl e ↦ rw is.bars (rw e (all_windows 3 _))
      | inr e ↦ rw is.bars (rw e (all_windows 6 _))
    ]
