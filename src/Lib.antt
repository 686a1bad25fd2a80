-- ===== src/Lib.antt =====
-- vCxCreditGuard watches the consumption of AI credits that a Checkmarx One tenant reports, compares
-- it with the limits that an administrator sets on users, groups, projects and applications, and
-- restricts whoever reaches a limit. This library models that core.
--
-- The program's parts, and the modules that model them:
-- - Model: the rows of the database (backend/app/models/*.py). Model.Database gathers them in `Db`;
--   a `World` is the database as one session sees it, the tenant, the instant of the call and the
--   client UUID that RoleResolver caches.
-- - Exec: a call that may raise. It maps a state to a result and a state, since what a session has
--   written before a raise stays in it; `attempt` is `try … except CheckmarxError`. Exec.Contracts
--   has the rules by which the proofs go through such calls.
-- - Periods: backend/app/services/periods.py, `current_window` with its keys and bounds.
-- - Checkmarx: the calls of backend/app/checkmarx/iam.py and platform.py that read and change
--   restrictions, over the endpoints of the tenant, which are the record `Remote`.
-- - Feed: backend/app/services/audit.py and notifications.py.
-- - Enforcement: backend/app/services/enforcement.py. Plan is `plan_targets`, Perform is `_perform`,
--   `_reconcile` and `_undo`, Apply is `apply_enforcement` with one function for each stage of its
--   loop, Restore is `restore_action` and `restore_for_limit`, Messages is the text of the notices.
-- - Usage: the totals of the newest snapshots (`latest_snapshot`, `latest_totals` and
--   `dimension_supported` of backend/app/services/ingestion.py) and `UsageIndex` of evaluation.py.
-- - Evaluation: backend/app/services/evaluation.py. State is the period state and its baseline,
--   Rollover is `_close_stale_periods`, Evaluate is `_evaluate_one` and `evaluate_all`.
-- - LimitsService: backend/app/services/limits_service.py, and `restore_on_limit_change` of
--   evaluation.py.
-- - LimitsCsv: backend/app/services/limits_csv.py. Apply is `import_limits`, which applies a
--   file with the calls of LimitsService, and Export is `export_limits`.
-- - Retention: backend/app/services/retention.py, one function for each table that `prune` prunes.
-- - Consumption: backend/app/checkmarx/usage.py, from the JSON of a response to the pages of rows.
-- - Matching: backend/app/services/subject_matching.py.
-- - Ingestion: backend/app/services/ingestion.py. Users is `build_user_index` and the ladder of
--   matches, Attribution the merging and attributing of rows, Dimension `_ingest_dimension` and
--   `_apply_user_outcome`, Run `ingest_usage`.
-- - Credits: backend/app/checkmarx/credits.py and step 2b of the cycle.
-- - Cycle: backend/app/services/cycle.py. Lock is the lock table, Steps is `_execute_steps`, Run is
--   `run_cycle` with `session_scope` of backend/app/db/session.py.
-- - Tests: a tenant with one user, runs on it, and the theorems at concrete inputs.
-- The evaluation closes the periods that ended, creates or refreshes the state of the current one, and
-- then calls the enforcement, which plans targets, changes the tenant through Checkmarx and writes
-- actions, audit entries and notices through Feed. The limits service calls the restoration. A cycle
-- takes the lock and then calls the ingestion, which stores what the evaluation reads, the evaluation
-- and the retention, each in the same session.
--
-- Choices of the model:
-- - An amount of credits is a number of ten-thousandths, the scale of the columns. So amounts that the
--   tenant reports have at most four decimals and are not negative; how the columns round finer ones
--   is left out. Comparisons of decimals are multiplied out. A limit and a
--   threshold are integers of either sign. Python's integers and the database's are not bounded here.
-- - All datetimes are UTC; the time of day is in microseconds. A call takes place at one instant:
--   each `utcnow()` in it reads the same moment. A year is written without padding.
-- - One counter numbers the rows of all tables, so an id tells a row of its table. There is one
--   writer: the branch in which another process wins a race on a unique column is left out.
-- - A query is a selection from a list in the order of insertion, which is the order that the
--   loops over unordered queries are given.
-- - Columns of enumerations hold values of the enumeration; branches for unknown values are left out.
-- - The row of an object that the session holds is written back under its id.
-- - Loops are over lists, so that every definition is total. The loop of the pagination has fuel for
--   501 tests of its condition, one for each of the 500 pages and the one that ends it.
-- - A set of texts is a sorted list without repetitions, or a list of which only membership is asked.
-- - A JSON object has each key once. Floats are an interface; the theorem on the best match asks that
--   `<` on them is a strict weak order.
-- - `Remote`, `Consumption` and `Pool` stand for the HTTP endpoints, each a call that may raise and
--   may change the tenant; `Printing`, `Python` and `Scores` for how Python writes amounts and dates,
--   for its text methods and `Decimal`, and for its floats; `Csv` and `Writer` for its csv module
--   and its reading and writing of numbers and dates; `Services` for what a cycle calls in modules
--   that are not modelled.
--
-- Not modelled: logging and the statistics of a run; the synchronisation of the organisation, the
-- outcomes of an import's single rows, delivery, accounts and sign-in but for what the retention
-- prunes, settings, the dashboard, the HTTP client, the API, the front end and the deployment. The
-- unique constraint of the subjects under review, which keys of more than 320 characters would meet,
-- is left out.
pub mod Prelude
pub mod Exec
pub mod Model
pub mod Periods
pub mod Checkmarx
pub mod Feed
pub mod Enforcement
pub mod Usage
pub mod Evaluation
pub mod LimitsService
pub mod LimitsCsv
pub mod Retention
pub mod Consumption
pub mod Matching
pub mod Ingestion
pub mod Credits
pub mod Cycle
pub mod Tests
