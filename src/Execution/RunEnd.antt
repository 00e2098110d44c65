-- ===== src/Execution/RunEnd.antt =====
-- How a run ends: `_complete_experiment` and `_persist_failure` of
-- backend/app/modules/execution/orchestrator.py, which the orchestrators share.
use trading_ai_framework.Prelude.{ℕ, Option, none, some, List, [], ◌∷◌, ◌++◌}
use trading_ai_framework.Prelude.Text.{String}
use trading_ai_framework.Domain.{ExperimentStatus, ExecutionStepStatus, EventLevel, SystemEventType}
use trading_ai_framework.Models.{Experiment, ExecutionStep, SystemEventLog}
use trading_ai_framework.Execution.Store.{Store, update_step}
use trading_ai_framework.Execution.Errors.{Result, ok, err, experiment_not_found}

abbrev pub new_event : Option ℕ → ℕ → EventLevel → SystemEventType → String → SystemEventLog
new_event step_id now level event_type message = record {
  execution_step_id = step_id;
  timestamp = now;
  level = level;
  event_type = event_type;
  message = message;
  created_at = now;
}

abbrev pub with_status : ExperimentStatus → ℕ → Experiment → Experiment
with_status status now e = record e { status = status; updated_at = now }

-- `_complete_experiment`
unfoldable pub complete_experiment : ℕ → Store → Result Store
complete_experiment now s = elim s.experiment [
  | none ↦ err experiment_not_found
  | some e ↦ ok (record s {
    experiment = some (with_status ExperimentStatus.completed now e);
    events =
        s.events
        ++ (new_event none now EventLevel.info SystemEventType.experiment_completed
              "Experiment completed."
            ∷ []);
  })
]

abbrev pub fail_step : String → ℕ → ExecutionStep → ExecutionStep
fail_step message now step = record step {
  status = ExecutionStepStatus.failed;
  completed_at = some now;
  error_message = some message;
}

abbrev pub fail_current : String → ℕ → Option ℕ → List ExecutionStep → List ExecutionStep
fail_current message now none steps = steps
fail_current message now (some id) steps = update_step id (fail_step message now) steps

-- `_persist_failure`, with the orchestrator's failure message
unfoldable pub persist_failure : String → Option ℕ → ℕ → Store → Store
persist_failure message step_id now s =
    let steps = fail_current message now step_id s.steps in
    elim s.experiment [
      | none ↦ record s { steps = steps }
      | some e ↦ record s {
        steps = steps;
        experiment = some (with_status ExperimentStatus.failed now e);
        events =
            s.events
            ++ (new_event step_id now EventLevel.error SystemEventType.experiment_failed
                  "Experiment failed."
                ∷ []);
      }
    ]
