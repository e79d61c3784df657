-- ===== src/Lib.antt =====
-- A workflow platform for several tenants: the core of its back end (backend/app).
--
-- A workflow is a graph of agents and connectors. backend/app/services/execution_service.py admits a
-- request and inserts a pending execution; backend/app/services/webhook_dispatcher_service.py runs the
-- pending ones that webhooks created, in batches, and schedules retries; backend/app/engine/executor.py
-- runs one execution node by node, charges its tokens to the tenant, logs each step and sends events to
-- WebSocket subscribers; backend/app/engine/compiler.py validates the graph before.
--
-- Files and code:
--   Store, Store/Writes: the rows of backend/app/models, the executor's dictionaries and the analytics
--     cache as one record World, and the single writes (_fail_execution, _cancel_execution, the updates
--     of executions and tenants, subscribe_ws, unsubscribe_ws, _broadcast_ws, request_cancel).
--   Graph: validate_definition, compile_graph (as the calls made on langgraph's StateGraph).
--   Schedule: _build_entry_node_queue, _build_edge_adjacency, _resolve_next_node, _topological_sort.
--   Executor, Executor/Steps, Executor/Loop: run_execution and _run_execution_inner, one function for
--     each stretch of the code between two branches.
--   Texts: what the services read from input_data. Executions, Executions/Listing: create_execution,
--     enforce_webhook_admission, retry_dead_letter_execution, cancel_execution, list_executions,
--     get_execution_logs.
--   Dispatcher: dispatch_pending_webhook_executions and its helpers.
--   RateLimit: RateLimitMiddleware of backend/app/middleware/rate_limit.py. Cost:
--     backend/app/engine/cost.py.
--   Workflows, Agents: backend/app/services/workflow_service.py and agent_service.py.
--   Auth, Auth/Users: backend/app/services/auth_service.py and the tokens of backend/app/core/security.py.
--   Tables: the rows of users, tokens, plans, runs, alerts, incidents, tools and suggestions. Health,
--     Alerts, Alerts/Sending, Alerts/Incidents, Alerts/Runbook, Alerts/Sla, Alerts/Recommendations: the
--     health of dispatches, the alerts and their delivery, the incidents, the runbook, the analytics of
--     incidents and the recommendations of backend/app/services/analytics_service.py. Alerts/Evaluator:
--     dispatch_alert_evaluator_worker.py.
--   Automation, Automation/Plans: the automation in analytics_service.py. Automation/Worker:
--     dispatch_automation_plan_worker.py. Automation/Scheduler, Automation/Rounds:
--     dispatch_automation_worker_scheduler.py. Automation/Approval: the abstract life of a plan;
--     Automation/Sites: the steps of users and of the worker, whose run is taken whole or in parts.
--   Tools: backend/app/services/tool_service.py. Doctor, Doctor/Replay, Doctor/Diagnosis:
--     workflow_doctor_service.py.
--   Base: Boolean tests, lists as tables, Python's dict, JSON values, results. Tests and below: a small
--     instance.
--   The other files hold proofs.
--
-- State is passed explicitly. An await that leaves the modelled code (an agent, a connector) is a
-- function of the record Env from the world to a reply and a world, since other tasks may change the
-- world meanwhile; langgraph's own check of the graph, str.strip().lower() and json.dumps are fields of
-- it too. Between the two reads of a cancellation the parameter `meanwhile` stands for other tasks.
-- Exceptions are results (HttpError, CompilationError) or the outcome `raised`. The database itself does
-- not fail: that an await of it raises is not modelled, nor are row locks and the structured logs.
--
-- The loop over the queue runs on fuel: the nodes of the order, the iteration limit of a cyclic workflow
-- and two more rounds: every round takes a node from the queue, and only a cyclic workflow adds one, up
-- to its limit. Kahn's loop has fuel for each node twice: at the start, and when its degree falls to 0.
--
-- A UUID and its text are one number; a time is a number of seconds; money is in units of 1e-8 USD, so
-- sums are exact where the code adds floats; an integer column has no upper bound. A stored `trigger` or
-- `dispatch` that is neither an object nor empty, which makes execution_service.py raise an
-- AttributeError, is read as an empty object. The key of a cache entry is its tenant.
--
-- The tokens of users are texts that the record Crypto encodes and decodes, and their hashes are its
-- too; a bcrypt salt is a new identifier. What the ORM does to the rows that refer to a removed user
-- is an argument, and so are the check of URLs of a tool, the HTTP client and the decryption that
-- deliver alerts (Mailer), sanitize_error, json.dumps and the regular expression of a diagnosis
-- (Reader), and the texts of errors that are stored. Where the code changes a row that a query found,
-- the model changes the rows of that query's condition. Averages are rounded half to even in tenths,
-- as Python rounds where a float is exact. Where the order of a query leaves ties open, the later row
-- counts as the later one. A row's own time is the model's clock, where the code takes the start of a
-- transaction from the database and the present from Python. A condition of an edge that is a JSON null
-- is read as missing, where Python takes the text of None.
--
-- Not modelled: the agents, tools and connectors behind Env, the charts and exports of the analytics,
-- the creation of alert channels, the texts of alerts and recommendations for users, the other
-- middleware, the loops that sleep between the rounds of the workers, the test call of a tool, the
-- services of connectors, the HTTP routes, schemas and migrations, and the other languages of the
-- repository.
mod Base
mod Tests
pub mod Agents
pub mod Alerts
pub mod Auth
pub mod Automation
pub mod Cost
pub mod Dispatcher
pub mod Doctor
pub mod Executions
pub mod Executor
pub mod Graph
pub mod Health
pub mod RateLimit
pub mod Schedule
pub mod Store
pub mod Tables
pub mod Texts
pub mod Tools
pub mod Workflows
