-- ===== src/Experiments/StatusMachine.antt =====
-- Which lifecycle action is possible in which status:
-- backend/app/modules/experiments/status_machine.py.
pub mod Graph
use trading_ai_framework.Prelude.{Bool, true, false, ◌||◌, List, [], ◌∷◌, if◌then◌else◌}
use trading_ai_framework.Prelude.Text.{String, ◌<>◌}
use trading_ai_framework.Domain.{ExperimentStatus}
use trading_ai_framework.Experiments.{AppError, Outcome, done, refused}

-- The keys of the two dictionaries.
pub data Action : Type 0 where
  start pause resume stop : Action

-- `LIFECYCLE_TRANSITIONS`
abbrev lifecycle_transitions : Action → List ExperimentStatus
lifecycle_transitions Action.start = ExperimentStatus.created ∷ []
lifecycle_transitions Action.pause = ExperimentStatus.running ∷ []
lifecycle_transitions Action.resume = ExperimentStatus.paused ∷ []
lifecycle_transitions Action.stop = ExperimentStatus.running ∷ ExperimentStatus.paused ∷ []

-- `TARGET_STATUSES`
abbrev pub target_statuses : Action → ExperimentStatus
target_statuses Action.start = ExperimentStatus.running
target_statuses Action.pause = ExperimentStatus.paused
target_statuses Action.resume = ExperimentStatus.running
target_statuses Action.stop = ExperimentStatus.stopped

-- `status.value`
abbrev pub value : ExperimentStatus → String
value ExperimentStatus.created = "CREATED"
value ExperimentStatus.running = "RUNNING"
value ExperimentStatus.paused = "PAUSED"
value ExperimentStatus.stopped = "STOPPED"
value ExperimentStatus.completed = "COMPLETED"
value ExperimentStatus.failed = "FAILED"

abbrev same_status : ExperimentStatus → ExperimentStatus → Bool
same_status ExperimentStatus.created ExperimentStatus.created = true
same_status ExperimentStatus.running ExperimentStatus.running = true
same_status ExperimentStatus.paused ExperimentStatus.paused = true
same_status ExperimentStatus.stopped ExperimentStatus.stopped = true
same_status ExperimentStatus.completed ExperimentStatus.completed = true
same_status ExperimentStatus.failed ExperimentStatus.failed = true
same_status _ _ = false

-- `status in statuses`
abbrev contains : ExperimentStatus → List ExperimentStatus → Bool
contains s [] = false
contains s (t ∷ ts) = same_status s t || contains s ts

abbrev action_label : Action → String
action_label Action.start = "started"
action_label Action.pause = "paused"
action_label Action.resume = "resumed"
action_label Action.stop = "stopped"

unfoldable pub validate_transition : Action → ExperimentStatus → Outcome ExperimentStatus
validate_transition action current =
    if contains current (lifecycle_transitions action)
    then done (target_statuses action)
    else refused (
        AppError.invalid_status (
          "Experiment cannot be "
          <> action_label action
          <> " from status "
          <> value current
          <> "."))
