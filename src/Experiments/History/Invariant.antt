-- ===== src/Experiments/History/Invariant.antt =====
-- What holds of an experiment at any time, however its calls and its background run interleave
-- (backend/app/modules/experiments/service.py, backend/app/modules/execution/orchestrator.py).
use mathlib.Core.Path.{subst}
use trading_ai_framework.Prelude.{
  ℕ, ◌≡◌, refl, sym, ap, ◌∙◌, Option, none, some, Option-cases, List, arith, inl, inr, true, All,
  Bool-cases,
}
use trading_ai_framework.Prelude.Text.{String}
use trading_ai_framework.Domain.{ExperimentStatus, ExperimentMode, TriggerType}
use trading_ai_framework.Decimal.Grid.{IsNonneg-of_pos, quantize-IsMoney}
use trading_ai_framework.Models.{Experiment, Portfolio, ExecutionStep}
use trading_ai_framework.Execution.Store.{Store}
use trading_ai_framework.Execution.Simulation.Laws.{IsSolvent, execute-evaluate-IsSolvent}
use trading_ai_framework.Execution.Errors.{ok, ok_inj, err≢ok}
use trading_ai_framework.Execution.RunEnd.{
  complete_experiment, persist_failure, fail_step, fail_current,
}
use trading_ai_framework.Execution.Orchestrator.Success.{
  or_division-ok, with_state-ok, with_step-ok,
}
use trading_ai_framework.Execution.Orchestrator.{
  Observation, create_running_step, run_step, run_found, run_decided, write_step, revalue,
  complete_step,
}
use trading_ai_framework.Experiments.{done, done_inj, refused≢done}
use trading_ai_framework.Experiments.StatusMachine.{Action}
use trading_ai_framework.Experiments.StatusMachine.Graph.{
  Transition, starts, pauses, resumes, stops_running, stops_paused, validate_transition-decides,
}
use trading_ai_framework.Experiments.Validators.{CreateExperimentRequest, Settings}
use trading_ai_framework.Experiments.Validators.Supported.{IsAdmissible}
use trading_ai_framework.Experiments.Service.{
  create_experiment, new_store, apply_lifecycle_action, ExperimentActionResponse, event_of,
}
use trading_ai_framework.Experiments.Service.Log.{
  IsTold, told, told-append, status_of, status_after,
}
use trading_ai_framework.Experiments.Service.Start.{create-accepts}
use trading_ai_framework.Experiments.History.Numbering.{
  AreNumbered, max-eq-length, AreNumbered-append, update-AreNumbered,
}
use trading_ai_framework.Execution.StepRunner.{is_completed_status, mark_completed}
use trading_ai_framework.Execution.Simulation.Made.{IsSimulated}
use trading_ai_framework.Execution.PaperRunner.Refused.{
  run_next_paper_step-keeps, run_event_step-keeps,
}
use trading_ai_framework.Experiments.History.Simulated.{
  is_simulation, no_agent, agentic-absurd, check_paper_step-refuses, sync_open_orders-keeps,
  executed-IsSimulated,
}
use trading_ai_framework.Experiments.History.{
  Transaction, acts, opens_step, runs_step, completes, marks_completed, asks_agent, steps_on_paper,
  answers_event, syncs, fails, Reachable, creates, continues,
}

-- A portfolio, where there is one, is solvent.
abbrev pub HasNoDebt : Option Portfolio → Type 0
HasNoDebt none = Unit
HasNoDebt (some p) = IsSolvent p

pub record IsConsistent (s : Store) : Type 0 where
  pub told : IsTold s
  pub solvent : HasNoDebt s.portfolio
  pub numbered : AreNumbered 1 s.steps
  pub simulation : is_simulation s.experiment ≡ true
  pub unsent : All IsSimulated s.orders

new-IsConsistent :
    (r : CreateExperimentRequest) (id now : ℕ)
    → r.mode ≡ ExperimentMode.historical_simulation
    → IsAdmissible r
    → IsConsistent (new_store r id now)
unfolding new_store
new-IsConsistent r id now historical can = record {
  told = refl;
  solvent = record {
    money = quantize-IsMoney (IsNonneg-of_pos r.initial_capital can.capital);
    long = (0, 0, refl);
  };
  numbered = tt;
  simulation = no_agent r.mode r.strategy_type r.trading_frequency historical can.combination;
  unsent = tt;
}

create-IsConsistent :
    (settings : Settings) (r : CreateExperimentRequest) (id now : ℕ) (s : Store)
    → r.mode ≡ ExperimentMode.historical_simulation
    → create_experiment settings r id now ≡ done s
    → IsConsistent s
create-IsConsistent settings r id now s historical h =
    let (can, same) = create-accepts settings r id now s h in
    rw (sym same) (new-IsConsistent r id now historical can)

-- The event of an action tells its target.
told_by :
    {a : Action} {s t : ExperimentStatus} (before : Option ExperimentStatus)
    → Transition a s t
    → status_after (event_of a) before ≡ some t
told_by before starts = refl
told_by before pauses = refl
told_by before resumes = refl
told_by before stops_running = refl
told_by before stops_paused = refl

acts-IsConsistent :
    (action : Action) (now : ℕ) (s : Store) (response : ExperimentActionResponse)
    → apply_lifecycle_action action now s ≡ done response
    → IsConsistent s
    → IsConsistent response.store
unfolding apply_lifecycle_action
acts-IsConsistent action now s response h c = elim (Option-cases s.experiment) [
  | inl e ↦ absurd (refused≢done (rw e at h))
  | inr (e, found) ↦ elim (validate_transition-decides action e.status) [
    | inr (_, (message, invalid)) ↦ absurd (refused≢done (rw (found, invalid) at h))
    | inl (t, arrow, valid) ↦
        rw
          (sym (ap (λ (r : ExperimentActionResponse). r.store) (done_inj (rw (found, valid) at h))))
          (record {
            told = told-append s.events _ ∙ told_by (told s.events) arrow;
            solvent = c.solvent;
            numbered = c.numbered;
            simulation = sym (ap is_simulation found) ∙ c.simulation;
            unsent = c.unsent;
          })
  ]
]

opens-IsConsistent :
    (trigger : TriggerType) (timestamp now : ℕ) (s : Store)
    → IsConsistent s
    → IsConsistent (create_running_step trigger timestamp now s).1
unfolding create_running_step
opens-IsConsistent trigger timestamp now s c = record {
  told = c.told;
  solvent = c.solvent;
  numbered =
      AreNumbered-append 1 s.steps _ c.numbered (omega arith)
        (omega (arith, max-eq-length s.steps c.numbered));
  simulation = c.simulation;
  unsent = c.unsent;
}

-- The rows after a step, once its portfolio is known.
found-IsConsistent :
    (o : Observation) (id now : ℕ) (e : Experiment) (p : Portfolio) (s s' : Store)
    → run_found o id now e p s ≡ ok s'
    → IsSolvent p
    → IsConsistent s
    → IsConsistent s'
unfolding run_found run_decided write_step revalue
found-IsConsistent o id now e p s s' h v c =
    let (figures, same) = or_division-ok _ _ s' h in
    let decision = o.decide p.position_quantity in
    let solvent = execute-evaluate-IsSolvent decision.symbol p _ v decision.action in
    rw (sym same) (record {
      told = c.told;
      solvent = record { money = solvent.money; long = solvent.long };
      numbered =
          update-AreNumbered (complete_step now) (λ _. refl) (λ _. refl) id 1 s.steps c.numbered;
      simulation = c.simulation;
      unsent = executed-IsSimulated _ p _ s.orders c.unsent;
    })

completes-IsConsistent :
    (now : ℕ) (s s' : Store) → complete_experiment now s ≡ ok s' → IsConsistent s → IsConsistent s'
unfolding complete_experiment
completes-IsConsistent now s s' h c = elim (Option-cases s.experiment) [
  | inl e ↦ absurd (err≢ok (rw e at h))
  | inr (e, found) ↦ rw (sym (ok_inj (rw found at h))) (record {
    told = told-append s.events _;
    solvent = c.solvent;
    numbered = c.numbered;
    simulation = sym (ap is_simulation found) ∙ c.simulation;
    unsent = c.unsent;
  })
]

failed-AreNumbered :
    (message : String) (now : ℕ) (id : Option ℕ) (steps : List ExecutionStep)
    → AreNumbered 1 steps
    → AreNumbered 1 (fail_current message now id steps)
failed-AreNumbered message now none steps h = h
failed-AreNumbered message now (some id) steps h =
    update-AreNumbered (fail_step message now) (λ _. refl) (λ _. refl) id 1 steps h

fails-IsConsistent :
    (message : String) (id : Option ℕ) (now : ℕ) (s : Store)
    → IsConsistent s
    → IsConsistent (persist_failure message id now s)
unfolding persist_failure
fails-IsConsistent message id now s c =
    let numbered = failed-AreNumbered message now id s.steps c.numbered in
    elim (Option-cases s.experiment) [
      | inl e ↦ rw e (record {
        told = c.told ∙ ap status_of e;
        solvent = c.solvent;
        numbered = numbered;
        simulation = refl;
        unsent = c.unsent;
      })
      | inr (e, found) ↦ rw found (record {
        told = told-append s.events _;
        solvent = c.solvent;
        numbered = numbered;
        simulation = sym (ap is_simulation found) ∙ c.simulation;
        unsent = c.unsent;
      })
    ]

runs-IsConsistent :
    (o : Observation) (id now : ℕ) (s s' : Store)
    → run_step o id now s ≡ ok s'
    → IsConsistent s
    → IsConsistent s'
unfolding run_step
runs-IsConsistent o id now s s' h c =
    let (e, p, has, runs) = with_state-ok s.experiment s.portfolio s.strategy_config _ s' h in
    found-IsConsistent o id now e p s s' (with_step-ok _ _ s' runs) (subst HasNoDebt has c.solvent)
      c

marks-IsConsistent :
    (now : ℕ) (e : Experiment) (s : Store)
    → s.experiment ≡ some e
    → IsConsistent s
    → IsConsistent (mark_completed now e s)
unfolding mark_completed
marks-IsConsistent now e s found c = elim (Bool-cases (is_completed_status e.status)) [
  | inl already ↦ rw already c
  | inr not_yet ↦ rw not_yet (record {
    told = told-append s.events _;
    solvent = c.solvent;
    numbered = c.numbered;
    simulation = sym (ap is_simulation found) ∙ c.simulation;
    unsent = c.unsent;
  })
]

-- What leaves the rows as they are.
unchanged-IsConsistent : {s s' : Store} → s' ≡ s → IsConsistent s → IsConsistent s'
unchanged-IsConsistent h c = subst IsConsistent (sym h) c

keeps-IsConsistent : {s s' : Store} → Transaction s s' → IsConsistent s → IsConsistent s'
keeps-IsConsistent (acts {s} action now response h) c = acts-IsConsistent action now s response h c
keeps-IsConsistent (opens_step {s} trigger timestamp now) c =
    opens-IsConsistent trigger timestamp now s c
keeps-IsConsistent (runs_step {s} {s'} o id now h) c = runs-IsConsistent o id now s s' h c
keeps-IsConsistent (completes {s} {s'} now h) c = completes-IsConsistent now s s' h c
keeps-IsConsistent (marks_completed {s} now e found) c = marks-IsConsistent now e s found c
keeps-IsConsistent (asks_agent {s} agent bar id now e found agentic h) c =
    absurd (agentic-absurd s e found agentic c.simulation)
keeps-IsConsistent
      (steps_on_paper {s} outside clock settings lock describe connect trigger scheduled_for) c =
    unchanged-IsConsistent
      (run_next_paper_step-keeps outside clock settings lock s
        (λ trigger slot h. check_paper_step-refuses settings trigger lock slot s c.simulation h)
        describe connect trigger scheduled_for)
      c
keeps-IsConsistent (answers_event {s} outside clock settings lock connect event_id scheduled_for)
      c =
    unchanged-IsConsistent
      (run_event_step-keeps outside clock settings lock s
        (λ trigger slot h. check_paper_step-refuses settings trigger lock slot s c.simulation h)
        connect event_id scheduled_for)
      c
keeps-IsConsistent (syncs {s} clock get_order_status) c =
    unchanged-IsConsistent (sync_open_orders-keeps clock get_order_status s c.unsent) c
keeps-IsConsistent (fails {s} message id now) c = fails-IsConsistent message id now s c

-- However the calls and the transactions of a simulated experiment's runs, of the step runner, of the
-- paper runner and of the broker synchronisation interleave from its creation on, its event log tells
-- its status, its portfolio has no debt, its steps are numbered from 1, it stays a simulation without
-- the agent, and none of its orders was sent to a broker.
pub Reachable-IsConsistent : {s : Store} → Reachable s → IsConsistent s
Reachable-IsConsistent (creates {s} settings r id now historical h) =
    create-IsConsistent settings r id now s historical h
Reachable-IsConsistent (continues before transaction) =
    keeps-IsConsistent transaction (Reachable-IsConsistent before)
