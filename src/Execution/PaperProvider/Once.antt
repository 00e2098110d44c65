-- ===== src/Execution/PaperProvider/Once.antt =====
-- An order of a step is placed once (backend/app/modules/execution/paper_provider.py).
use trading_ai_framework.Prelude.{
  ℕ, ◌≡◌, refl, sym, ap, ◌∙◌, inl, inr, Bool, true, false, ◌||◌, Option, none, some, List, [], ◌∷◌,
  ◌++◌, arith, ◌==◌, Bool-cases, if◌then◌else◌,
}
use trading_ai_framework.Decimal
use trading_ai_framework.Decimal.{Decimal}
use trading_ai_framework.Domain.{FinalAction, OrderSide}
use trading_ai_framework.Models.{Portfolio, Order}
use trading_ai_framework.Execution.Risk.{RiskResult}
use trading_ai_framework.Execution.BrokerSync.{BrokerOrderResult}
use trading_ai_framework.Execution.Errors.{Result, ok, err, ok_inj, err≢ok}
use trading_ai_framework.Execution.PaperProvider.{
  PlaceOrder, PaperExecutionResult, PaperCall, answered, existing_order, submits, on_answer,
  on_side, on_existing, on_quantity, place_if_applicable, nothing_placed, found_order,
}

-- A call that ends without asking the broker: no trade, and the portfolio as it was.
abbrev pub NotPlaced : Portfolio → Result PaperExecutionResult → Type 0
NotPlaced p result =
    (x : PaperExecutionResult) × (result ≡ ok x)
    × (x.trade ≡ none)
    × (x.broker_result ≡ none)
    × (x.portfolio ≡ p)

-- The step of an order, where there is one.
abbrev step_of : Option Order → Option ℕ
step_of none = none
step_of (some o) = some o.execution_step_id

answered-step :
    (c : PaperCall) (r : BrokerOrderResult) (price : Option Decimal) (p : Portfolio)
    → step_of (answered c r price p).order ≡ some c.execution_step_id
unfolding answered
answered-step c r none p = refl
answered-step c r (some price) p = elim (Bool-cases (Decimal.lt Decimal.nought r.filled_quantity)) [
  | inl e ↦ rw e refl
  | inr e ↦ rw e refl
]

-- A call with an answer of the broker has an order of its step.
abbrev FromBroker : PaperCall → PaperExecutionResult → Type 0
FromBroker c x =
    (a : BrokerOrderResult) → x.broker_result ≡ some a → step_of x.order ≡ some c.execution_step_id

no_answer : {A : Type 0} {a : A} → none ≡ some a → ⊥
no_answer h = cc

module _ (broker : PlaceOrder → Result BrokerOrderResult) (c : PaperCall) (p : Portfolio)
    (x : PaperExecutionResult) where
  on_answer-FromBroker :
      (r : Result BrokerOrderResult) → on_answer broker c p r ≡ ok x → FromBroker c x
  unfolding on_answer
  on_answer-FromBroker (err e) h = absurd (err≢ok h)
  on_answer-FromBroker (ok r) h = λ a is.
      ap (λ (y : PaperExecutionResult). step_of y.order) (sym (ok_inj h))
      ∙ answered-step c r r.average_fill_price p

  on_side-FromBroker :
      (quantity : Decimal) (side : Option OrderSide)
      → on_side broker quantity c p side ≡ ok x
      → FromBroker c x
  unfolding on_side
  on_side-FromBroker quantity none h = absurd (err≢ok h)
  on_side-FromBroker quantity (some side) h = on_answer-FromBroker _ h

  on_existing-FromBroker :
      (action : FinalAction) (quantity : Decimal) (found : Option Order)
      → on_existing broker action quantity c p found ≡ ok x
      → FromBroker c x
  unfolding on_existing
  on_existing-FromBroker action quantity none h = on_side-FromBroker quantity _ h
  on_existing-FromBroker action quantity (some o) h = λ a is.
      absurd (no_answer (ap (λ (y : PaperExecutionResult). y.broker_result) (ok_inj h) ∙ is))

  nothing-FromBroker : ok (nothing_placed p) ≡ ok x → FromBroker c x
  nothing-FromBroker h = λ a is.
      absurd (no_answer (ap (λ (y : PaperExecutionResult). y.broker_result) (ok_inj h) ∙ is))

  by_test-FromBroker :
      (test : Bool) (rest : Result PaperExecutionResult)
      → (rest ≡ ok x → FromBroker c x)
      → (if test then rest else ok (nothing_placed p)) ≡ ok x
      → FromBroker c x
  by_test-FromBroker true rest k h = k h
  by_test-FromBroker false rest k h = nothing-FromBroker h

  on_quantity-FromBroker :
      (r : RiskResult) (orders : List Order) (quantity : Option Decimal)
      → on_quantity broker r p c orders quantity ≡ ok x
      → FromBroker c x
  unfolding on_quantity
  on_quantity-FromBroker r orders none h = nothing-FromBroker h
  on_quantity-FromBroker r orders (some quantity) h =
      by_test-FromBroker (submits r quantity) _ (on_existing-FromBroker r.final_action quantity _) h

-- A row of the step is found among the orders.
found-last :
    (step_id risk_check_id : ℕ) (row : Order) (orders : List Order)
    → row.execution_step_id ≡ step_id
    → (o : Order) × (existing_order step_id risk_check_id (orders ++ (row ∷ [])) ≡ some o)
unfolding existing_order
found-last step_id risk_check_id row [] h = (row, ground (arith, h))
found-last step_id risk_check_id row (o ∷ orders) h =
    elim (Bool-cases ((o.execution_step_id == step_id) || (o.risk_check_id == risk_check_id))) [
      | inl e ↦ (o, rw e refl)
      | inr e ↦ let (found, is) = found-last step_id risk_check_id row orders h in (found, rw e is)
    ]

module _ (broker : PlaceOrder → Result BrokerOrderResult) (c : PaperCall) (p : Portfolio)
    (o : Order) where
  found-NotPlaced :
      (action : FinalAction) (quantity : Decimal) (found : Option Order)
      → found ≡ some o
      → NotPlaced p (on_existing broker action quantity c p found)
  unfolding on_existing
  found-NotPlaced action quantity (some o') h = (found_order o' p, refl, refl, refl, refl)
  found-NotPlaced action quantity none h = absurd (no_answer h)

  by_test-NotPlaced :
      (test : Bool) (rest : Result PaperExecutionResult)
      → NotPlaced p rest
      → NotPlaced p (if test then rest else ok (nothing_placed p))
  by_test-NotPlaced true rest k = k
  by_test-NotPlaced false rest k = (nothing_placed p, refl, refl, refl, refl)

  existing-NotPlaced :
      (r : RiskResult) (orders : List Order) (quantity : Option Decimal)
      → existing_order c.execution_step_id c.risk_check_id orders ≡ some o
      → NotPlaced p (on_quantity broker r p c orders quantity)
  unfolding on_quantity
  existing-NotPlaced r orders none h = (nothing_placed p, refl, refl, refl, refl)
  existing-NotPlaced r orders (some quantity) h =
      by_test-NotPlaced (submits r quantity) _ (found-NotPlaced r.final_action quantity _ h)

some_inj : {x y : ℕ} → some x ≡ some y → x ≡ y
some_inj h = cc

-- When a call has got an answer of the broker and its order is among the rows, under whatever identity,
-- then another call for the same step, with any broker, check, portfolio and risk check, asks the broker
-- nothing, makes no trade and leaves the portfolio as it was.
pub place_if_applicable-NotPlaced :
    (broker broker' : PlaceOrder → Result BrokerOrderResult) (r r' : RiskResult) (p p' : Portfolio)
    (c c' : PaperCall) (orders : List Order) (x : PaperExecutionResult) (a : BrokerOrderResult)
    (o : Order) (id : ℕ)
    → place_if_applicable broker r p c orders ≡ ok x
    → x.broker_result ≡ some a
    → x.order ≡ some o
    → c'.execution_step_id ≡ c.execution_step_id
    → NotPlaced p' (place_if_applicable broker' r' p' c' (orders ++ (record o { id = id } ∷ [])))
unfolding place_if_applicable
place_if_applicable-NotPlaced broker broker' r r' p p' c c' orders x a o id h asked ordered same =
    let step : some o.execution_step_id ≡ some c.execution_step_id =
      ap step_of (sym ordered)
      ∙ on_quantity-FromBroker broker c p x r orders r.final_quantity h a asked in
    let (found, is) =
      found-last c'.execution_step_id c'.risk_check_id (record o { id = id }) orders
        (some_inj step ∙ sym same) in
    existing-NotPlaced broker' c' p' found r' (orders ++ (record o { id = id } ∷ []))
      r'.final_quantity is
