-- ===== src/Execution/StepRunner/WholeRun.antt =====
-- Calls of `run_next_step` one after another
-- (backend/app/modules/execution/step_runner.py) do what a background run does at once
-- (backend/app/modules/execution/orchestrator.py).
pub mod Equivalence
use mathlib.Core.Path.{subst}
use mathlib.Core.List.{map-append, append_assoc}
use trading_ai_framework.Prelude.{
  ℕ, zero, suc, ◌+◌, ◌*◌, ◌≡◌, ◌≢◌, refl, sym, ap, ◌∙◌, Bool, true, false, Option, some, none, List,
  [], ◌∷◌, ◌++◌, map, length, leb, get_elem?, arith, get_elem?-append_length, All, All-last,
  length-append, ◌==◌, if◌then◌else◌,
}
use trading_ai_framework.Prelude.Text.{String}
use trading_ai_framework.Decimal.{Decimal}
use trading_ai_framework.Domain.{ExperimentStatus, StrategyType, TriggerType}
use trading_ai_framework.Models.{Experiment, StrategyConfig, DailyBar}
use trading_ai_framework.Agents.Types.{AgentContext, AgentRunResult}
use trading_ai_framework.Execution.Store.{Store}
use trading_ai_framework.Execution.Orchestrator.{Observation, bar_timestamp, run_step}
use trading_ai_framework.Execution.RunEnd.{complete_experiment}
use trading_ai_framework.Execution.Historical.{
  LoopEnd, finished, run_bars, end_run, observe_buy_and_hold, observe_moving_average,
  window_or_default,
}
use trading_ai_framework.Execution.Historical.Bar.{
  IsReady, after, after-IsReady, after-experiment, after-config, length-after, bar_runs,
}
use trading_ai_framework.Execution.StepRunner.{
  Ended, attempt, run_strategy_step, run_next_step, finish_step, complete_experiment_once,
  mark_completed, prices_through_bar,
}
use trading_ai_framework.Execution.StepRunner.OneBar.{
  CanStep, stepped, stepped-experiment, stepped-config, stepped-IsReady, length-stepped,
  run_next_step-eq, figures,
}

-- The readings of the clock in the k-th call, where a run reads it for its k-th bar.
abbrev pub call_clock : (ℕ → ℕ) → ℕ → ℕ → ℕ
call_clock clock k zero = clock (2 * k)
call_clock clock k (suc i) = elim i [ zero ↦ clock (2 * k + 1) | suc j ↦ clock (2 * suc k) ]

-- No two bars have the same date.
abbrev pub HaveDistinctDates : List DailyBar → Type 0
HaveDistinctDates [] = Unit
HaveDistinctDates (b ∷ bars) = All (λ c. b.date ≢ c.date) bars × HaveDistinctDates bars

abbrev prices_of : List DailyBar → List Decimal
prices_of bars = map (λ (b : DailyBar). b.adjusted_close) bars

prices_through_bar-append :
    (done : List DailyBar) (b : DailyBar) (rest : List DailyBar)
    → HaveDistinctDates (done ++ (b ∷ rest))
    → prices_through_bar b.date (done ++ (b ∷ rest)) ≡ prices_of done ++ (b.adjusted_close ∷ [])
unfolding prices_through_bar
prices_through_bar-append [] b rest h = ground arith
prices_through_bar-append (d ∷ done) b rest h = ground (
  arith,
  All-last (λ (c : DailyBar). d.date ≢ c.date) done b rest h.0,
  prices_through_bar-append done b rest h.1,
)

module _ (clock : ℕ → ℕ) (load : ℕ → ℕ → Option (List DailyBar))
    (agent : AgentContext → Option AgentRunResult) (trigger : TriggerType) where
  -- So many calls, from the k-th on.
  unfoldable pub step_through : ℕ → ℕ → Store → Store
  step_through zero k s = s
  step_through (suc n) k s =
      step_through n (suc k) (run_next_step (call_clock clock k) (λ i. load) agent true trigger s).0

-- The experiment is completed alike.
finish-eq-end :
    (clock : ℕ → ℕ) (load : ℕ → ℕ → ℕ → Option (List DailyBar))
    (agent : AgentContext → Option AgentRunResult) (id now : ℕ) (message : String) (s : Store)
    (e : Experiment)
    → s.experiment ≡ some e
    → e.status ≡ ExperimentStatus.running
    → clock 2 ≡ now
    → (finish_step clock load agent id s true).0 ≡ (end_run message now (finished s)).0
unfolding finish_step complete_experiment_once mark_completed end_run complete_experiment
finish-eq-end clock load agent id now message s e has running at = rw (has, running, at) refl

-- In every call the strategy of an experiment decides as `observe` does, on a bar after the prices
-- before it.
abbrev pub Decides :
    (ℕ → ℕ → Option (List DailyBar))
    → (AgentContext → Option AgentRunResult)
    → Experiment
    → List DailyBar
    → StrategyConfig
    → (List Decimal → DailyBar → Observation)
    → Type 0
Decides load agent e bars config observe =
    (times : ℕ → ℕ) (done : List DailyBar) (b : DailyBar) (rest : List DailyBar)
    → bars ≡ done ++ (b ∷ rest)
    → (id : ℕ) (created : Store) → created.strategy_config ≡ some config
    → run_strategy_step times (λ i. load) agent e.strategy_type b id e created
      ≡ attempt
          (run_step (observe (prices_of done ++ (b.adjusted_close ∷ [])) b) id (times 1) created)

-- An experiment, its bars, and what its strategy decides on a bar after the prices before it.
module _ (clock : ℕ → ℕ) (load : ℕ → ℕ → Option (List DailyBar))
    (agent : AgentContext → Option AgentRunResult) (e : Experiment) (can : CanStep e)
    (bars : List DailyBar) (loads : load e.start_date e.end_date ≡ some bars)
    (config : StrategyConfig) (observe : List Decimal → DailyBar → Observation)
    (decides : Decides load agent e bars config observe) (message : String) where
  run_bars_nil :
      (n : ℕ) (prices : List Decimal) (s : Store)
      → run_bars clock observe n prices [] s ≡ finished s
  unfolding run_bars
  run_bars_nil n prices s = refl

  -- Where the calls and the run stand alike, before the bar `b`.
  record StandsAt (done : List DailyBar) (b : DailyBar) (rest : List DailyBar) (s : Store)
      : Type 0 where
    split : bars ≡ done ++ (b ∷ rest)
    has_experiment : s.experiment ≡ some e
    has_config : s.strategy_config ≡ some config
    steps : length s.steps ≡ length done
    ready : IsReady s

  module _ (done : List DailyBar) (b : DailyBar) (rest : List DailyBar) (s : Store)
      (at : StandsAt done b rest s) where
    here : get_elem? bars (length s.steps) ≡ some b
    here = rw (at.steps, at.split) (get_elem?-append_length done b rest)

    length-bars : length bars ≡ length done + suc (length rest)
    length-bars = ap length at.split ∙ length-append done (b ∷ rest)

    abbrev observation : Observation
    observation = observe (prices_of done ++ (b.adjusted_close ∷ [])) b

    abbrev times : ℕ → ℕ
    times = call_clock clock (length done)

    decided :
        (id : ℕ) (created : Store)
        → created.strategy_config ≡ s.strategy_config
        → run_strategy_step times (λ i. load) agent e.strategy_type b id e created
          ≡ attempt (run_step observation id (times 1) created)
    decided id created same = decides times done b rest at.split id created (same ∙ at.has_config)

    next : Store
    next =
        stepped s at.ready e at.has_experiment can times (λ i. load) agent bars (λ i. loads) b here
          observation decided TriggerType.historical

    call-eq :
        run_next_step times (λ i. load) agent true TriggerType.historical s
        ≡ finish_step times
            (λ i. load)
            agent
            (suc (length s.steps))
            next
            (leb (length bars) (suc (length s.steps)))
    unfolding next
    call-eq =
        run_next_step-eq s at.ready e at.has_experiment can times (λ i. load) agent bars
          (λ i. loads) b here observation decided TriggerType.historical

    -- The run executes the same bar.
    bars-eq :
        run_bars clock observe (length done) (prices_of done) (b ∷ rest) s
        ≡ run_bars clock observe
            (suc (length done))
            (prices_of done ++ (b.adjusted_close ∷ []))
            rest
            next
    unfolding run_bars next stepped figures
    bars-eq =
        let (m, runs) =
          bar_runs observation (clock (2 * length done + 1)) s at.ready TriggerType.historical
            (bar_timestamp b) (clock (2 * length done)) in
        rw runs refl

    next-experiment : next.experiment ≡ some e
    unfolding next
    next-experiment =
        stepped-experiment s at.ready e at.has_experiment can times (λ i. load) agent bars
          (λ i. loads) b here observation decided TriggerType.historical
        ∙ at.has_experiment

    next-StandsAt :
        (b' : DailyBar) (rest' : List DailyBar)
        → rest ≡ b' ∷ rest'
        → StandsAt (done ++ (b ∷ [])) b' rest' next
    unfolding next
    next-StandsAt b' rest' more = record {
      split =
          at.split
          ∙ (ap (λ bs. done ++ (b ∷ bs)) more ∙ sym (append_assoc done (b ∷ []) (b' ∷ rest')));
      has_experiment = next-experiment;
      has_config =
          stepped-config s at.ready e at.has_experiment can times (λ i. load) agent bars
            (λ i. loads) b here observation decided TriggerType.historical
          ∙ at.has_config;
      steps = omega (
        arith,
        length-stepped s at.ready e at.has_experiment can times (λ i. load) agent bars (λ i. loads)
            b here observation decided TriggerType.historical,
        at.steps,
        length-append done (b ∷ []),
      );
      ready =
          stepped-IsReady s at.ready e at.has_experiment can times (λ i. load) agent bars
            (λ i. loads) b here observation decided TriggerType.historical;
    }

    last-eq :
        rest ≡ []
        → (run_next_step times (λ i. load) agent true TriggerType.historical s).0
          ≡ (end_run message (clock (2 * length bars)) (finished next)).0
    last-eq none_left =
        let last : leb (length bars) (suc (length s.steps)) ≡ true =
          ground (arith, length-bars, ap length none_left, at.steps) in
        ap (λ (r : Store × Ended). r.0) call-eq
        ∙ (ap (λ (t : Bool). (finish_step times (λ i. load) agent (suc (length s.steps)) next t).0)
              last
            ∙ finish-eq-end times (λ i. load) agent (suc (length s.steps)) (clock (2 * length bars))
                message next e next-experiment can.running
                (ap (λ n. clock (2 * n)) (omega (arith, length-bars, ap length none_left))))

    more-eq :
        (b' : DailyBar) (rest' : List DailyBar)
        → rest ≡ b' ∷ rest'
        → (run_next_step times (λ i. load) agent true TriggerType.historical s).0 ≡ next
    unfolding finish_step
    more-eq b' rest' more =
        let left : leb (length bars) (suc (length s.steps)) ≡ false =
          ground (arith, length-bars, ap length more, at.steps) in
        ap (λ (r : Store × Ended). r.0) call-eq
        ∙ ap (λ (t : Bool). (finish_step times (λ i. load) agent (suc (length s.steps)) next t).0)
            left

  -- From a bar on, as many calls as bars are left do what the run does.
  calls-eq-run :
      (rest done : List DailyBar) (b : DailyBar) (s : Store)
      → StandsAt done b rest s
      → step_through clock load agent TriggerType.historical (suc (length rest)) (length done) s
        ≡ (end_run message
            (clock (2 * length bars))
            (run_bars clock observe (length done) (prices_of done) (b ∷ rest) s)).0
  unfolding step_through
  calls-eq-run [] done b s at =
      last-eq done b [] s at refl
      ∙ sym (
          ap (λ (end : LoopEnd). (end_run message (clock (2 * length bars)) end).0)
            (bars-eq done b [] s at ∙ run_bars_nil _ _ _))
  calls-eq-run (b' ∷ rest) done b s at =
      let s' : Store = next done b (b' ∷ rest) s at in
      let go : ℕ → Store → Store =
        step_through clock load agent TriggerType.historical (suc (length rest)) in
      let end : LoopEnd → Store = λ l. (end_run message (clock (2 * length bars)) l).0 in
      let run : ℕ → List Decimal → Store =
        λ n ps. end (run_bars clock observe n ps (b' ∷ rest) s') in
      let count : length (done ++ (b ∷ [])) ≡ suc (length done) =
        omega (arith, length-append done (b ∷ [])) in
      let more : go (length (done ++ (b ∷ []))) s'
          ≡ run (length (done ++ (b ∷ []))) (prices_of (done ++ (b ∷ []))) =
        calls-eq-run rest (done ++ (b ∷ [])) b' s'
          (next-StandsAt done b (b' ∷ rest) s at b' rest refl) in
      ap (go (suc (length done))) (more-eq done b (b' ∷ rest) s at b' rest refl)
      ∙ (subst (λ n. go n s' ≡ run n (prices_of done ++ (b.adjusted_close ∷ []))) count
            (subst (λ ps. go (length (done ++ (b ∷ []))) s' ≡ run (length (done ++ (b ∷ []))) ps)
              (map-append (λ (x : DailyBar). x.adjusted_close) done (b ∷ [])) more)
          ∙ sym (ap end (bars-eq done b (b' ∷ rest) s at)))
