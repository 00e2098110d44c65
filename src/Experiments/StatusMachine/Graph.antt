-- ===== src/Experiments/StatusMachine/Graph.antt =====
-- The transitions of backend/app/modules/experiments/status_machine.py as a graph.
use trading_ai_framework.Prelude.{◌≡◌, refl, ◌⊎◌, inl, inr}
use trading_ai_framework.Prelude.Text.{String}
use trading_ai_framework.Domain.{ExperimentStatus}
use trading_ai_framework.Experiments.{done, refused, AppError}
use trading_ai_framework.Experiments.StatusMachine.{Action, validate_transition}

-- The arrows.
pub data Transition : Action → ExperimentStatus → ExperimentStatus → Type 0 where
  starts : Transition Action.start ExperimentStatus.created ExperimentStatus.running
  pauses : Transition Action.pause ExperimentStatus.running ExperimentStatus.paused
  resumes : Transition Action.resume ExperimentStatus.paused ExperimentStatus.running
  stops_running : Transition Action.stop ExperimentStatus.running ExperimentStatus.stopped
  stops_paused : Transition Action.stop ExperimentStatus.paused ExperimentStatus.stopped

-- Each arrow is accepted, with its target.
pub validate_transition-done :
    {a : Action} {s t : ExperimentStatus} → Transition a s t → validate_transition a s ≡ done t
unfolding validate_transition
validate_transition-done starts = refl
validate_transition-done pauses = refl
validate_transition-done resumes = refl
validate_transition-done stops_running = refl
validate_transition-done stops_paused = refl

-- Each action in each status is either an arrow of the graph, accepted with the arrow's target, or
-- no arrow from the status, and refused as an invalid status.
pub validate_transition-decides :
    (a : Action) (s : ExperimentStatus)
    → ((t : ExperimentStatus) × Transition a s t × (validate_transition a s ≡ done t))
      ⊎ (((t : ExperimentStatus) → Transition a s t → ⊥)
          × ((message : String) × (validate_transition a s
                ≡ refused (AppError.invalid_status message))))
unfolding validate_transition
validate_transition-decides Action.start ExperimentStatus.created =
    inl (ExperimentStatus.running, starts, refl)
validate_transition-decides Action.start ExperimentStatus.running =
    inr ((λ t h. elim h [ ]), (_, refl))
validate_transition-decides Action.start ExperimentStatus.paused =
    inr ((λ t h. elim h [ ]), (_, refl))
validate_transition-decides Action.start ExperimentStatus.stopped =
    inr ((λ t h. elim h [ ]), (_, refl))
validate_transition-decides Action.start ExperimentStatus.completed =
    inr ((λ t h. elim h [ ]), (_, refl))
validate_transition-decides Action.start ExperimentStatus.failed =
    inr ((λ t h. elim h [ ]), (_, refl))
validate_transition-decides Action.pause ExperimentStatus.created =
    inr ((λ t h. elim h [ ]), (_, refl))
validate_transition-decides Action.pause ExperimentStatus.running =
    inl (ExperimentStatus.paused, pauses, refl)
validate_transition-decides Action.pause ExperimentStatus.paused =
    inr ((λ t h. elim h [ ]), (_, refl))
validate_transition-decides Action.pause ExperimentStatus.stopped =
    inr ((λ t h. elim h [ ]), (_, refl))
validate_transition-decides Action.pause ExperimentStatus.completed =
    inr ((λ t h. elim h [ ]), (_, refl))
validate_transition-decides Action.pause ExperimentStatus.failed =
    inr ((λ t h. elim h [ ]), (_, refl))
validate_transition-decides Action.resume ExperimentStatus.created =
    inr ((λ t h. elim h [ ]), (_, refl))
validate_transition-decides Action.resume ExperimentStatus.running =
    inr ((λ t h. elim h [ ]), (_, refl))
validate_transition-decides Action.resume ExperimentStatus.paused =
    inl (ExperimentStatus.running, resumes, refl)
validate_transition-decides Action.resume ExperimentStatus.stopped =
    inr ((λ t h. elim h [ ]), (_, refl))
validate_transition-decides Action.resume ExperimentStatus.completed =
    inr ((λ t h. elim h [ ]), (_, refl))
validate_transition-decides Action.resume ExperimentStatus.failed =
    inr ((λ t h. elim h [ ]), (_, refl))
validate_transition-decides Action.stop ExperimentStatus.created =
    inr ((λ t h. elim h [ ]), (_, refl))
validate_transition-decides Action.stop ExperimentStatus.running =
    inl (ExperimentStatus.stopped, stops_running, refl)
validate_transition-decides Action.stop ExperimentStatus.paused =
    inl (ExperimentStatus.stopped, stops_paused, refl)
validate_transition-decides Action.stop ExperimentStatus.stopped =
    inr ((λ t h. elim h [ ]), (_, refl))
validate_transition-decides Action.stop ExperimentStatus.completed =
    inr ((λ t h. elim h [ ]), (_, refl))
validate_transition-decides Action.stop ExperimentStatus.failed =
    inr ((λ t h. elim h [ ]), (_, refl))
