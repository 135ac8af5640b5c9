-- ===== src/Lib.antt =====
-- A verification library of the trading agent: the parts of app/ that decide whether an order may be
-- placed, that place it once, that keep the account of paper trading, and that turn snapshots of the
-- market into virtual positions under the review of agents.
--
-- The program. A candidate trade goes to `RiskEngine.evaluate` (app/risk/risk_engine.py), which
-- answers with a decision: an approved quantity, or the reasons against the trade. An approved
-- decision becomes an order intent, which `ExecutionAgent.execute` (app/execution/order_manager.py)
-- checks again, reserves under its idempotency key in a store (app/execution/idempotency.py) and
-- gives to a broker with a permit (app/brokers/base.py). `PaperTradingEngine` (app/paper/engine.py)
-- keeps cash, positions and a journal for research, and places no orders.
-- `IntradayShadowPipeline.process_snapshot` (app/intraday/pipeline.py) checks the data of a snapshot,
-- its kill switch and the universe, asks each strategy for a signal, scores it, asks the risk
-- manager for an approval, simulates a fill and opens a virtual position. Between these steps it asks
-- `AgenticOrchestrator` (app/agentic/orchestrator.py), whose agents may block or reduce.
--
-- The files, and the code that they model:
--   Prelude     shared names; Int (Python's int), Float (the interface of Python's float), FixedPoint
--               (a Float that computes, for examples), Text (texts and dict), Result (exceptions as
--               values), Lists (rows of checks that append a reason), Dedupe (`dict.fromkeys`, the
--               removal of duplicate reasons).
--   Core        app/core/enums.py, and of app/core/config.py the settings that are read here.
--   Schemas     app/schemas: the records of brokers, providers, trades, orders and decisions.
--   Risk        app/risk: KillSwitch, Freshness (data_freshness.py), Limits (drawdown.py, exposure.py,
--               rules.py, long_only.py), Quality (liquidity.py, slippage.py), Sizing
--               (position_sizing.py). Risk/Engine is `evaluate`: Inputs are its arguments, Reasons the
--               checks block by block, Sized the sizing, Evaluate the whole. Gates, Assessed,
--               Approval, Limits, Outcome and Total prove.
--   Execution   Broker is app/brokers/base.py, with the permit in Broker/Context. Store is the
--               interface that the agent relies on, Store/Memory and Store/Database the two stores;
--               Store/Durable proves of the second. Agent/Steps is `execute`, one
--               definition for each stretch of it.
--               Permission, Idempotency and Stored prove.
--   Pipeline    the risk engine in front of the agent.
--   Paper       Symbols and Models are app/paper/models.py and the normal form of a symbol.
--               Engine/State is the state of the engine with `__init__`, `_entry_block_reason` and
--               `_blocked`; Engine/Orders is `_open_position` and `_close_position`; Engine/Account
--               the public methods. Cases, Journal, Positions, Limits, Exits and Total prove. The position
--               in a returned result is a copy, where the code returns the object that it keeps.
--   Intraday    app/intraday. Models (with Enums), Config, Quality (the monitor of market_data.py),
--               Universe, Regime, Scoring, RiskManager, KillSwitch, Clock (clock times), Exits
--               (exit_manager.py), Costs, Positions, ShadowExecution, Readiness and Strategies are
--               the files of that name. Reviewer is what the pipeline asks of `self.agentic`.
--               Pipeline/State is what the pipeline keeps and returns, Pipeline/Steps the body of its
--               loop, Pipeline/Process `process_snapshot`. Approved, Halts, Book, Lifecycle, Levels,
--               Votes, Graded and Proposals prove.
--   Agentic     app/agentic. Config, Models, Policy; Review is `BaseReviewAgent.review`, Agents the
--               deterministic reviews, Orchestrator/Reviews and Orchestrator/PreMarket the reviews of
--               the orchestrator, Orchestrator/Outcome what comes of a record. FailClosed and Vetoes
--               prove.
--   Services    Of app/services, ShadowExit is shadow_exit_service.py: the answer on an open
--               observation. ShadowExit/Answers and ShadowExit/Total prove.
--
-- State and exceptions. A function that reads its object only takes it as an argument; one that
-- writes it returns it anew, beside its result. An exception is an `err`, and where a call may write
-- before it raises (`execute`, `process_snapshot`), the state comes with the exception. Times,
-- identifiers and the token of the process are arguments. No definition runs on fuel: each loop
-- goes through a list.
--
-- Parameters. Python's float is the record `Float`, of which nothing is assumed but where a theorem
-- says so (`EqualIsOrdered` of Risk/Engine/Total; `IsAdditive` of Paper/Engine/Journal;
-- `IsComparison` of Services/ShadowExit/Total, on its comparisons).
-- The broker is a record of two functions that may answer or raise anything. The store is a record
-- of three functions with the laws `IsStore`: a key that is read gives the record that was written.
-- The store in memory is proved to have them. The one in the database reads back what pydantic and
-- the JSONB column make of a record (`Payloads` of Execution/Store/Database), so that it has them for
-- records which these leave as they are: an infinite float, or a response of the broker that JSON does
-- not know, may read back as another record or raise. A transaction of the database is one step; its
-- foreign keys, and what it raises otherwise, are parameters.
--
-- A snapshot, and the moment at which an exit is checked, carry the offset of their zone from UTC, in
-- which `datetime.time` gives the wall clock.
--
-- pydantic, which writes an output of an agent out and reads it again, is a record of two functions
-- (`Library` of Agentic/Review), of which `ReadsBack` says that what is read is what was written, or
-- an exception. Python's `int` of a text and `float` of a value are functions of the model's caller.
-- The ids that are drawn and the times that are measured while a snapshot is handled come with the
-- call. Writing to the files of the journals does not fail.
--
-- Not modelled: HTTP, mail and the database sessions (app/api, app/data_providers, app/db,
-- app/brokers/zerodha_broker.py, app/brokers/alpaca_broker.py); the range checks of the schemas, which
-- a third-party package makes; the market calendar's clocks (app/risk/market_calendar.py); the
-- builder of snapshots from a provider's payload, the files of the journals, the report of a day and
-- the agent that reviews it (app/intraday/daily_report.py); and app/backtesting, app/strategies and,
-- but for the loop over snapshots and the explanation of shadow exits, app/services. Two agents that
-- interleave on one store are not modelled: calls come one after the other.
pub mod Prelude
pub mod Core
pub mod Schemas
pub mod Risk
pub mod Execution
pub mod Pipeline
pub mod Paper
pub mod Agentic
pub mod Services
pub mod Intraday
