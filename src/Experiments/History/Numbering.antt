-- ===== src/Experiments/History/Numbering.antt =====
-- The numbers of execution steps: what `max_sequence_number` of
-- backend/app/persistence/repositories/execution_step_repository.py gives, and what updates keep.
use trading_ai_framework.Prelude.{
  ℕ, suc, ◌+◌, ◌≡◌, refl, ◌∙◌, List, [], ◌∷◌, ◌++◌, arith, length, Bool-cases, ◌==◌, inl, inr,
}
use trading_ai_framework.Models.{ExecutionStep}
use trading_ai_framework.Execution.Store.{update_step, max_sequence_number}

-- The steps have the identities and the numbers i, i + 1, ….
abbrev pub AreNumbered : ℕ → List ExecutionStep → Type 0
AreNumbered i [] = Unit
AreNumbered i (s ∷ steps) = (s.id ≡ i) × (s.sequence_number ≡ i) × AreNumbered (suc i) steps

max-AreNumbered :
    (i : ℕ) (s : ExecutionStep) (steps : List ExecutionStep)
    → AreNumbered i (s ∷ steps)
    → max_sequence_number (s ∷ steps) ≡ i + length steps
unfolding max_sequence_number
max-AreNumbered i s [] h = omega (arith, h.1)
max-AreNumbered i s (t ∷ steps) h = omega (arith, h.1, max-AreNumbered (suc i) t steps h.2)

pub max-eq-length :
    (steps : List ExecutionStep) → AreNumbered 1 steps → max_sequence_number steps ≡ length steps
unfolding max_sequence_number
max-eq-length [] h = refl
max-eq-length (s ∷ steps) h = omega (arith, max-AreNumbered 1 s steps h)

pub AreNumbered-append :
    (i : ℕ) (steps : List ExecutionStep) (new : ExecutionStep)
    → AreNumbered i steps
    → new.id ≡ i + length steps
    → new.sequence_number ≡ i + length steps
    → AreNumbered i (steps ++ (new ∷ []))
AreNumbered-append i [] new h a b = (omega (arith, a), omega (arith, b), tt)
AreNumbered-append i (s ∷ steps) new h a b =
    (h.0, h.1, AreNumbered-append (suc i) steps new h.2 (omega (arith, a)) (omega (arith, b)))

-- An update that keeps identities and numbers.
module _ (f : ExecutionStep → ExecutionStep) (keeps_id : (s : ExecutionStep) → (f s).id ≡ s.id)
    (keeps_number : (s : ExecutionStep) → (f s).sequence_number ≡ s.sequence_number) where
  pub update-AreNumbered :
      (id i : ℕ) (steps : List ExecutionStep)
      → AreNumbered i steps
      → AreNumbered i (update_step id f steps)
  unfolding update_step
  update-AreNumbered id i [] h = tt
  update-AreNumbered id i (s ∷ steps) h = elim (Bool-cases (s.id == id)) [
    | inl e ↦ rw e (keeps_id s ∙ h.0, keeps_number s ∙ h.1, update-AreNumbered id (suc i) steps h.2)
    | inr e ↦ rw e (h.0, h.1, update-AreNumbered id (suc i) steps h.2)
  ]
