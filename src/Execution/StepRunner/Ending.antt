-- ===== src/Execution/StepRunner/Ending.antt =====
-- How a call of `run_next_step` ends, whatever is missing or raises
-- (backend/app/modules/execution/step_runner.py).
use mathlib.Core.Path.{subst}
use trading_ai_framework.Prelude.{
  ℕ, suc, ◌≡◌, refl, sym, ap, ◌∙◌, ◌⊎◌, inl, inr, Bool, true, false, Option, some, none, List,
  arith, Option-cases, get_elem?, leb, length,
}
use trading_ai_framework.Domain.{ExperimentStatus, TriggerType}
use trading_ai_framework.Models.{Experiment, DailyBar}
use trading_ai_framework.Agents.Types.{AgentContext, AgentRunResult}
use trading_ai_framework.Experiments.{AppError}
use trading_ai_framework.Execution.Store.{Store, has_running_step, max_sequence_number}
use trading_ai_framework.Execution.Errors.{Error, load_failed}
use trading_ai_framework.Execution.RunEnd.{persist_failure, fail_current, fail_step}
use trading_ai_framework.Execution.Orchestrator.{create_running_step, bar_timestamp, complete_step}
use trading_ai_framework.Execution.Historical.Ending.{HasStatus, persist_failure-fails}
use trading_ai_framework.Execution.StepRunner.{
  selected, gives, other, application, Ended, returned, raised, StepRunResult, found, loaded,
  permitted, ◌>>=◌, otherwise, end_raised, check_step, select_at, select_bar_and_create_step,
  mark_completed, complete_experiment_once, is_running_status, is_final_bar, finish_step,
  step_message, step_done, no_bars_left, run_selected, run_next_step,
}
use trading_ai_framework.Execution.StepRunner.OneBar.{found-bind}
use trading_ai_framework.Execution.StepRunner.Outcomes.{update_step-settles, artifacts-GivesOr}

abbrev pub IsQuiet : Store → Type 0
IsQuiet s = has_running_step s.steps ≡ false

-- A call is refused and changes nothing; or it raises, and the experiment has failed; or it returns,
-- and the experiment is running or completed. Where it is not refused, no step is left running.
abbrev pub StepEnds : Store → Store × Ended → Type 0
StepEnds s result =
    ((x : AppError) × (result.1 ≡ raised (application x)) × (result.0 ≡ s))
    ⊎ ((x : Error) × (result.1 ≡ raised (other x))
        × HasStatus ExperimentStatus.failed result.0
        × IsQuiet result.0)
    ⊎ ((a : StepRunResult) × (result.1 ≡ returned a)
        × (HasStatus ExperimentStatus.running result.0
            ⊎ HasStatus ExperimentStatus.completed result.0)
        × IsQuiet result.0)

running_of :
    (status : ExperimentStatus)
    → is_running_status status ≡ true
    → status ≡ ExperimentStatus.running
running_of ExperimentStatus.running h = refl
running_of ExperimentStatus.created h = cc
running_of ExperimentStatus.paused h = cc
running_of ExperimentStatus.stopped h = cc
running_of ExperimentStatus.completed h = cc
running_of ExperimentStatus.failed h = cc

check_step-passes :
    (lock : Bool) (e : Experiment) (s : Store)
    → check_step lock e s ≡ none
    → (e.status ≡ ExperimentStatus.running) × IsQuiet s
unfolding check_step
check_step-passes lock e s h = (running_of e.status (ground arith), ground arith)

mark_completed-completes :
    (now : ℕ) (e : Experiment) (s : Store)
    → e.status ≡ ExperimentStatus.running
    → HasStatus ExperimentStatus.completed (mark_completed now e s)
      × ((mark_completed now e s).steps ≡ s.steps)
unfolding mark_completed
mark_completed-completes now e s h = rw h ((_, refl, refl), refl)

persist_failure-IsQuiet :
    (id : Option ℕ) (now : ℕ) (s : Store)
    → has_running_step (fail_current step_message now id s.steps) ≡ false
    → IsQuiet (persist_failure step_message id now s)
unfolding persist_failure
persist_failure-IsQuiet id now s h = elim (Option-cases s.experiment) [
  | inl e ↦ rw e h
  | inr (e, has) ↦ rw has h
]

module _ (clock : ℕ → ℕ) (load : ℕ → ℕ → ℕ → Option (List DailyBar))
    (agent : AgentContext → Option AgentRunResult) (lock : Bool) (trigger : TriggerType)
    (s : Store) where
  -- A failure with the experiment and the rows at hand.
  fails-StepEnds :
      (id : Option ℕ) (now : ℕ) (t : Store) (e : Experiment) (x : Error)
      → t.experiment ≡ some e
      → has_running_step (fail_current step_message now id t.steps) ≡ false
      → StepEnds s (end_raised now id (other x) t)
  unfolding end_raised
  fails-StepEnds id now t e x has quiet = inr (
      inl (
        x,
        refl,
        persist_failure-fails step_message id now t e has,
        persist_failure-IsQuiet id now t quiet,
      ))

  finish-StepEnds :
      (id : ℕ) (t : Store) (e : Experiment) (last : Bool)
      → t.experiment ≡ some e
      → e.status ≡ ExperimentStatus.running
      → IsQuiet t
      → StepEnds s (finish_step clock load agent id t last)
  unfolding finish_step complete_experiment_once
  finish-StepEnds id t e false has running quiet = inr (inr (_, refl, inl (e, has, running), quiet))
  finish-StepEnds id t e true has running quiet =
      let (done, same) = mark_completed-completes (clock 2) e t running in
      subst (λ a. StepEnds s (otherwise (clock 3) none t a (λ t'. (t', returned (step_done id)))))
        (sym (found-bind _ has)) (inr (inr (_, refl, inr done, ap has_running_step same ∙ quiet)))

  final_loaded-StepEnds :
      (id n : ℕ) (t : Store) (e : Experiment) (bars : Option (List DailyBar))
      → t.experiment ≡ some e
      → e.status ≡ ExperimentStatus.running
      → IsQuiet t
      → StepEnds s (
          otherwise
            (clock 2)
            none
            t
            (loaded bars >>= λ bs. gives (leb (length bs) n))
            (finish_step clock load agent id t))
  final_loaded-StepEnds id n t e none has running quiet =
      fails-StepEnds none (clock 2) t e load_failed has quiet
  final_loaded-StepEnds id n t e (some bars) has running quiet =
      finish-StepEnds id t e _ has running quiet

  final-StepEnds :
      (id n : ℕ) (t : Store) (e : Experiment)
      → t.experiment ≡ some e
      → e.status ≡ ExperimentStatus.running
      → IsQuiet t
      → StepEnds s (
          otherwise
            (clock 2)
            none
            t
            (is_final_bar clock load agent n t)
            (finish_step clock load agent id t))
  unfolding is_final_bar
  final-StepEnds id n t e has running quiet =
      subst (λ a. StepEnds s (otherwise (clock 2) none t a (finish_step clock load agent id t)))
        (sym (found-bind _ has))
        (final_loaded-StepEnds id n t e (load 2 e.start_date e.end_date) has running quiet)

  -- A bar, the step that was created for it, and the artifacts of the step.
  bar-StepEnds :
      (bar : DailyBar) (n : ℕ) (e : Experiment)
      → s.experiment ≡ some e
      → e.status ≡ ExperimentStatus.running
      → IsQuiet s
      → StepEnds s (
          let (id, created) = create_running_step trigger (bar_timestamp bar) (clock 0) s in
          run_selected clock load agent (selected bar n id created))
  unfolding run_selected create_running_step
  bar-StepEnds bar n e has running quiet =
      let begun : ℕ × Store = create_running_step trigger (bar_timestamp bar) (clock 0) s in
      let rest : Store → Store × Ended = λ t.
        otherwise (clock 2) none t (is_final_bar clock load agent n t)
          (finish_step clock load agent begun.0 t) in
      elim (artifacts-GivesOr clock load agent bar begun.0 begun.1 e has) [
        | inl (x, failed) ↦
            subst (λ a. StepEnds s (otherwise (clock 2) (some begun.0) begun.1 a rest)) (sym failed)
              (fails-StepEnds (some begun.0) (clock 2) begun.1 e x has (
                update_step-settles begun.0 (fail_step step_message (clock 2)) _ s.steps (λ y. refl)
                  refl quiet))
        | inr (t, ran, (same, steps)) ↦
            subst (λ a. StepEnds s (otherwise (clock 2) (some begun.0) begun.1 a rest)) (sym ran)
              (final-StepEnds begun.0 n t e (same ∙ has) running (
                ap has_running_step steps
                ∙ update_step-settles begun.0 (complete_step (clock 1)) _ s.steps (λ y. refl) refl
                    quiet))
      ]

  selected-StepEnds :
      (bar : Option DailyBar) (n : ℕ) (e : Experiment)
      → s.experiment ≡ some e
      → e.status ≡ ExperimentStatus.running
      → IsQuiet s
      → StepEnds s (run_selected clock load agent (select_at trigger (clock 0) e n s bar))
  unfolding run_selected
  selected-StepEnds none n e has running quiet =
      let (done, same) = mark_completed-completes (clock 0) e s running in
      inr (inr (no_bars_left, refl, inr done, ap has_running_step same ∙ quiet))
  selected-StepEnds (some bar) n e has running quiet = bar-StepEnds bar (suc n) e has running quiet

  permitted-StepEnds :
      (e : Experiment) (refusal : Option AppError) (bars : Option (List DailyBar))
      → check_step lock e s ≡ refusal
      → s.experiment ≡ some e
      → StepEnds s (
          otherwise
            (clock 1)
            none
            s
            (permitted refusal >>= λ ready. loaded bars >>= λ bs. gives (
              select_at trigger
                (clock 0)
                e
                (max_sequence_number s.steps)
                s
                (get_elem? bs (max_sequence_number s.steps))))
            (run_selected clock load agent))
  unfolding end_raised
  permitted-StepEnds e (some x) bars h has = inl (x, refl, refl)
  permitted-StepEnds e none none h has =
      fails-StepEnds none (clock 1) s e load_failed has (check_step-passes lock e s h).1
  permitted-StepEnds e none (some bs) h has =
      let (running, quiet) = check_step-passes lock e s h in
      selected-StepEnds _ _ e has running quiet

  found-StepEnds :
      (row : Option Experiment)
      → s.experiment ≡ row
      → StepEnds s (
          otherwise
            (clock 1)
            none
            s
            (found row >>= λ e. permitted (check_step lock e s) >>= λ ready.
              loaded (load 0 e.start_date e.end_date) >>= λ bs. gives (
                select_at trigger
                  (clock 0)
                  e
                  (max_sequence_number s.steps)
                  s
                  (get_elem? bs (max_sequence_number s.steps))))
            (run_selected clock load agent))
  unfolding end_raised
  found-StepEnds none has = inl (_, refl, refl)
  found-StepEnds (some e) has = permitted-StepEnds e _ _ refl has

  -- Whatever the rows, the bars, the lock and the agent: a call is refused with an error of the
  -- application and changes nothing; or it raises another error, and the experiment has failed; or it
  -- returns, and the experiment is running or completed. Unless it was refused, no step is running
  -- after it.
  pub run_next_step-StepEnds : StepEnds s (run_next_step clock load agent lock trigger s)
  unfolding run_next_step select_bar_and_create_step
  run_next_step-StepEnds = found-StepEnds s.experiment refl
