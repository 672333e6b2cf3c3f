-- ===== src/Lib.antt =====
-- Project risk platform: models and theorems for the Python service apps/api/src/risk_platform, a FastAPI
-- application over PostgreSQL with Celery workers and one scheduler. The paths below are from
-- apps/api/src/risk_platform.
--
-- The parts and the files that model them:
--
-- - Reliability: the durable tasks, PostgreSQL rows from which all background work is dispatched.
--   Reliability/Task holds the rows, the CHECK constraints and the registry of reliability/models.py and
--   reliability/registry.py; Reliability/Core/Enqueue, Lease and Reconcile hold `create_task`,
--   `enqueue_task`, `claim_task`, `heartbeat`, `finish_task` and `reconcile` of reliability/core.py, each a
--   function from a store to a result and a store; Reliability/Dispatcher holds `publish_outbox` and
--   `execute_message` of reliability/dispatcher.py. Reliability/Trace strings the transactions together
--   into histories, with the log of granted claims beside the store; Reliability/Job is the abstract
--   machine that these histories are compared with.
-- - Rbac: the access rules. Rbac/Scopes holds `project_scope_predicate` and the queries of rbac/scopes.py
--   and rbac/guards.py; Rbac/Roles the policies of admin/roles/policy.py and admin/users/policy.py.
-- - Auth: sessions and passwords. Auth/Store holds the rows, the repository's queries and the runtime
--   settings, Auth/Access the user that a session shows, Auth/Login the three logins, Auth/Session
--   `authenticate` and `logout`, Auth/Password auth/policy.py and `change_password`; all of
--   auth/service.py. The scope of a user is aggregated from the roles in Auth/Access and applied by
--   Rbac/Scopes.
-- - AdminUsers: the administration of users. AdminUsers/Store holds the rows and the shared checks,
--   AdminUsers/Projects the managers of projects, AdminUsers/Service `create`, `update`, `set_status`,
--   `unlock`, `reset_password` and `set_project_scopes` of admin/users/service.py. They write the users and
--   end the sessions of Auth, by the policies of Rbac/Roles.
-- - TimeRanges: shared/time_ranges.py, over the calendar of Python's `date` in TimeRanges/Calendar.
-- - Scheduler: scheduler.py, the loop that publishes the outbox, reconciles the tasks and syncs
--   mailboxes. Scheduler/Cadence holds `from_env`, Scheduler/Loop the liveness state, `tick` and `run`.
-- - Todos: the to-do items of risks. Todos/Model holds the rows and Todos/Schedule the weekly
--   suggestions of todos/policy.py; Todos/Service `update_in_session`, Todos/Risks
--   `process_in_session`, `create_for_risk_in_session` and `ensure_for_risk` of todos/service.py.
-- - Risks: the life of a risk on the rows of Todos. Risks/Report holds `create_in_session`, Risks/Change
--   `update_agent_in_session`, Risks/Lifecycle `resolve_in_session` and `reopen` of risks/service.py.
-- - WeeklyReports: the report of a project's week. WeeklyReports/Model holds the rows of
--   weekly_reports/models.py, the columns of mailbox/models.py that the report reads and
--   `_authority_rows`; Invalidate, Rebuild, Report, Handle and Reconcile hold `invalidate_week`, `rebuild`,
--   `report` with `detail`, `handle` and `reconcile` of weekly_reports/service.py. An invalidation enqueues a task of
--   Reliability, whose handler rebuilds the week from the mails, risks and to-do items.
-- - Mailbox: the review of the risks that were found in mails. Mailbox/Candidates holds `confirm_response`,
--   `update` and `ignore` of mailbox/extraction.py: a confirmed candidate becomes a risk of Risks, and the
--   weekly reports of its project are invalidated.
-- - Agent: the confirmations of the agent's proposals. Agent/Content holds the canonical content and its
--   validation, Agent/Token the token with its owner and content, Agent/Confirm `confirm` of
--   agent/confirmation.py, which runs the operations of Risks and Todos under the access rules of Auth and
--   Rbac.
-- - Base: what the parts share: Boolean tests, lists, tables of rows, Python's text operations, JSON.
--
-- How the code is read. A table is a list of rows, a select the first row that fits, an update a map
-- over the rows that fit with their count as `rowcount`. A transaction is a function on the store, and
-- an error leaves the store that the code would leave. Instants are numbers of milliseconds and UUIDs are
-- numbers; the clock, new UUIDs and tokens are arguments, and so are the rows that rival transactions
-- commit during a call (`rivals`, `between`) and the rows they lock (`locked`). Argon2, HMAC, Unicode case
-- folding, lower() in SQL and the class \d are fields of `Auth.Store.Externals`; SHA-256, pydantic and the
-- digests of canonical JSON are fields of `Agent.Token.AgentExternals`; Python's `float` is an
-- argument of `from_env`; the texts of dates and UUIDs and their readers, the order of names in the database,
-- the categories of risks and the time of a source's last write are arguments of the operations that use
-- them. A handler of tasks is an argument, and its run may change the store at will.
--
-- Bounds and fuel. The recursions are on lists, except three on fuel: `date_of` looks for the year with
-- one more step than the day's number and for the month with twelve, which Calendar proves enough for
-- every day, and `decimal` prints a number with one more step than the number. The instants of the time
-- ranges count from 0001-01-01 00:00 UTC, and the zone Asia/Shanghai is an argument
-- (`TimeRanges.Resolve.Zone`), since its conversions come from the time zone data of the system; the laws
-- suppose that it has kept one offset over the range and the one before, as Shanghai does since September
-- 1991. The instants of the weekly reports count on the wall clock of Shanghai at that offset.
--
-- Not modelled: the HTTP routers and schemas, the removal of temporary directories in `reconcile`, the
-- Celery and database wiring, the probe server, the columns createdAt and updatedAt of the to-do items,
-- the hash chain of the audit log, and the rest of the agent, the AI provider, dashboard, import, project,
-- retention, timeline and system configuration modules, the rest of the mailbox, and the queries of the risk
-- and to-do lists. In the to-do items, an audit record and the invalidation of a report are entries of a log.
pub mod Base
pub mod Reliability
pub mod Rbac
pub mod Auth
pub mod AdminUsers
pub mod TimeRanges
pub mod Scheduler
pub mod Todos
pub mod Risks
pub mod WeeklyReports
pub mod Mailbox
pub mod Agent
