-- ===== src/Lib.antt =====
-- Trading Lab backend (backend/app): experiments that trade one equity with a strategy, on historical
-- bars or on paper. This library models the backend's core and proves what makes it correct.
--
-- The parts, and where they are modelled:
--
-- Decimal: Python's `decimal.Decimal` where the backend uses it, as a finite number
--   coefficient / 10^places: sums, products, comparisons, `quantize` (half to even), whole-number
--   floors and quotients that are quantized. Decimal/Rounding, Floor, Order and Grid have its laws.
--   Numbers are exact: a quotient that is floored or quantized is the floor or the rounding of the
--   exact quotient, and products are whole. The rounding of every result to the context's 28 digits
--   is not modelled; sums and products of amounts with few enough digits are not affected,
--   but a quotient is rounded twice in Python. Nor are the exceptions of large numbers: where the
--   result of `quantize` has more than 28 digits Python raises InvalidOperation, and where a number has
--   more digits than its column the database refuses it; here `quantize` and a column are total.
--   `stored` is the rounding of a column, half away from zero.
-- Times: Python's dates and times as numbers: a date is its proleptic ordinal, a time counts
--   microseconds.
-- Domain, Models: backend/app/domain/enums.py and the rows of backend/app/persistence/models. JSON
--   columns are left out but for the tags that a component sets. The capital, the fee and the
--   threshold of a request are rounded as their columns do (`stored`). Any other decimal is kept as it is written: the figures are quantized to the grid of their columns by the
--   source, and the quantities and prices that come from the bars and from the broker are assumed to
--   have at most the eight places of Numeric(19, 8), which a column keeps.
-- Strategies: backend/app/modules/strategies, less the agent's.
-- Execution/Risk: backend/app/modules/execution/risk.py, the check that turns a decision into a
--   quantity.
-- Execution/Simulation: backend/app/modules/execution/simulation_provider.py, which fills an order at
--   the bar's price. The portfolio that the source updates in place is passed and returned.
-- Execution/Metrics: backend/app/modules/execution/metrics.py.
-- Execution/Store: the rows of one experiment, with the queries of backend/app/persistence/repositories
--   that the runs use. A row's identity is its place in its table.
-- Execution/Orchestrator, Execution/RunEnd, Execution/Historical, Execution/Errors:
--   backend/app/modules/execution/orchestrator.py, one bar, the end of a run, and a whole run of
--   Buy-and-Hold and of Moving Average. A session that raises commits nothing: a
--   step's result is the new rows or an error, and an error ends the run in `persist_failure`. The
--   loop over the bars is recursion on their list.
-- Execution/Breakout: the Opening Range Breakout run of the same file, over the sessions of five-minute
--   bars; its step is that of Execution/Orchestrator.
-- Execution/BrokerSync: backend/app/modules/execution/broker_sync.py, the status and the fills of paper
--   orders taken over from the broker, over the rows of one experiment.
-- Experiments: backend/app/modules/experiments: the status machine (StatusMachine), the check of a
--   request (Validators) and the operations of `ExperimentService` that change rows (Service).
--   `upper`, `lower` and `strip` are those of ASCII.
-- Experiments/History: what may happen to a simulated experiment, in any order: those operations, the
--   transactions of a background run and of the step runner, and the calls of the paper runner and of
--   the broker synchronisation, which leave a simulation as it is (History/Simulated). An experiment on
--   paper is not part of it: its fills come at the broker's prices.
-- Execution/AgentStep, Execution/StepRunner: backend/app/modules/execution/step_runner.py, one bar of a
--   simulation at a time: a call's guards, the step it creates, its artifacts by strategy, the
--   completion after the last bar and the failures. `Attempt` is a part of a call with the error it
--   raises; `Ended` is how the call ends.
-- MarketData/Calendar: backend/app/modules/market_data/trading_calendar.py, the holidays, early closes
--   and sessions of US equities.
-- MarketData/Intraday, MarketData/Hourly, MarketData/Validation: intraday_provider.py, hourly_bars.py
--   and intraday_validation.py of backend/app/modules/market_data, the regular session, the hourly
--   windows and bars, and the checks that a session's bars are complete.
-- Execution/PaperProvider: backend/app/modules/execution/paper_provider.py, an order placed with the
--   broker and the fill that it comes back with.
-- Execution/PaperExecution, PaperSteps, PaperArtifacts, PaperRunner:
--   backend/app/modules/execution/paper_step_runner.py, from the placing of the order and its figures
--   over the three kinds of a step to a whole call, by hand, by schedule or for an event. The rows of a
--   decision are committed before the order is placed, so that a call that raises later leaves them.
-- Agents/Types: the answer of an agent (backend/app/modules/agents/types.py).
-- Agents/DecisionGate: backend/app/modules/agents/decision_gate.py, the gate between an agent's
--   decision and the risk check.
-- Tests: the theorems at concrete inputs.
--
-- A request is checked, stored as an experiment and started by Experiments/Service; the start hands a
-- simulation to the background tasks, which is a run of Execution/Historical; a run takes, for each
-- bar, the decision of a strategy (Strategies) through the check (Execution/Risk) to the execution
-- (Execution/Simulation), and writes the figures (Execution/Metrics). The step runner does the same for
-- one bar a call. On paper, a step takes the latest bar, or the bars of the session so far, through a
-- strategy or the agent and the check to the broker (Execution/PaperProvider); what the broker fills
-- later is taken over by Execution/BrokerSync.
--
-- Fuel: `expected_bar_start_times` goes on for at most the 288 intervals of five minutes of a day,
-- `seek_forward` and `seek_back` for the seven days of a week, `sessions_between` for the days from the
-- one date to the other, `windows_from` for as many rounds as there are starts, and `year_of` tries
-- the 40 years from the first that can be meant, where dates up to the year 9999 need no more than 30.
--
-- Parameters: the clock (`clock n` is its n-th reading in a run), the market data provider
-- (`load start end` gives the bars of a range, or nothing where it raises), and the broker
-- (`get_order_status n id` is its n-th answer). A step also takes whether the advisory lock was free
-- (`lock`), the agent (`agent`), and on paper what `Outside` lists: the broker's `place_order`, the
-- market data, the agent, the default model and the clock of New York; `connect` is the message with
-- which the broker adapter cannot be made, and `describe` the text of an exception. The theorems
-- assume nothing of them but, where they say so, that the bars of the range can be loaded.
--
-- Not modelled: the providers of market data, the other parts of the agents, news events, the
-- scheduler, authentication, the HTTP interface and the migrations. Broker, language models, files and network are outside the program.
pub mod Prelude
pub mod Times
pub mod Decimal
pub mod Domain
pub mod Models
pub mod Strategies
pub mod MarketData
pub mod Execution
pub mod Experiments
pub mod Agents
mod Tests
