-- ===== src/Experiments/Service/Log.antt =====
-- The event log of an experiment tells its status
-- (backend/app/modules/experiments/service.py, backend/app/modules/execution/orchestrator.py).
use trading_ai_framework.Prelude.{◌≡◌, refl, Option, none, some, List, [], ◌∷◌, ◌++◌}
use trading_ai_framework.Domain.{ExperimentStatus, SystemEventType}
use trading_ai_framework.Models.{Experiment, SystemEventLog}
use trading_ai_framework.Execution.Store.{Store}

-- The status after an event, from the status before.
abbrev pub status_after : SystemEventType → Option ExperimentStatus → Option ExperimentStatus
status_after SystemEventType.experiment_created before = some ExperimentStatus.created
status_after SystemEventType.experiment_started before = some ExperimentStatus.running
status_after SystemEventType.experiment_paused before = some ExperimentStatus.paused
status_after SystemEventType.experiment_resumed before = some ExperimentStatus.running
status_after SystemEventType.experiment_stopped before = some ExperimentStatus.stopped
status_after SystemEventType.experiment_completed before = some ExperimentStatus.completed
status_after SystemEventType.experiment_failed before = some ExperimentStatus.failed
status_after _ before = before

-- The status that a log tells, from the status before it.
abbrev told_from : Option ExperimentStatus → List SystemEventLog → Option ExperimentStatus
told_from before [] = before
told_from before (event ∷ events) = told_from (status_after event.event_type before) events

abbrev pub told : List SystemEventLog → Option ExperimentStatus
told events = told_from none events

abbrev pub status_of : Option Experiment → Option ExperimentStatus
status_of none = none
status_of (some e) = some e.status

-- The log tells the status of the experiment that is there.
abbrev pub IsTold : Store → Type 0
IsTold s = told s.events ≡ status_of s.experiment

told_from-append :
    (before : Option ExperimentStatus) (events : List SystemEventLog) (e : SystemEventLog)
    → told_from before (events ++ (e ∷ [])) ≡ status_after e.event_type (told_from before events)
told_from-append before [] e = refl
told_from-append before (x ∷ events) e =
    told_from-append (status_after x.event_type before) events e

pub told-append :
    (events : List SystemEventLog) (e : SystemEventLog)
    → told (events ++ (e ∷ [])) ≡ status_after e.event_type (told events)
told-append events e = told_from-append none events e
