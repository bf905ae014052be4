-- ===== src/Lib.antt =====
-- Kernexys: a control API for model deployments, a queue of inference jobs in Redis with its workers,
-- and a small model runtime. This library models the Python code of both services.
--
-- The parts, and the modules that model them:
--   Prelude, Json   shared names, Boolean tests, lists, results and dicts; JSON values and the codec of
--                   Python's json module as an interface (Json.Codec, an instance in Json/Sample)
--   Errors          app/errors.py: ApiError and what each exception handler answers
--   Redis           the Redis commands that the queue uses, as an interface whose laws say what each
--                   command does to hashes, lists and texts; an instance in Redis/Memory
--   Queue           app/async_queue.py: enqueue, get, claim, finish, recover_processing are the
--                   functions of these names; the two Lua scripts are in Queue/Scripts
--   Worker          app/worker.py: process_job, consume (turn is one round) and recover_periodically
--   Http            app/middleware.py and runtime/runtime_app/middleware.py: the body limit
--                   (Http/Limit, Http/Replay), the request id (Http/RequestId), the runtime's
--                   counters (Http/Inference, with runtime/runtime_app/metrics.py)
--   Registry        app/repository.py and app/db_models.py, with the registry routes of app/routes.py
--                   in Registry/Routes
--   Readiness       app/routes.py: ready, and the dependency it blames
--   Kubernetes      app/kubernetes.py: the gateway and its error mapping
--   Deployments     app/deployment_routes.py: the desired object and the read-back
--                   (Deployments/Resources), what the API server makes of it
--                   (Deployments/Observed), readiness (Deployments/Ready), the routes;
--                   rollback and the inference proxy are in Deployments/Rollback
--   AsyncRoutes     app/async_routes.py: enqueue_job, and get_job in AsyncRoutes/Jobs
--   Metrics         app/metrics.py: MetricsCollector, its dicts (Metrics/Tables), the percentiles
--                   (Metrics/Percentile) and to_prometheus_format (Metrics/Format)
--   Settings        app/config.py: from_env; _positive_int and _boolean in Settings/Variables
--   Runtime         runtime/runtime_app: config.py (Runtime/Config), classifier.py
--                   (Runtime/Classifier), main.py (Runtime/App)
--   Schemas         app/schemas.py: names and validators, their patterns in Schemas/Patterns
--                   as automata, and as regular expressions in Schemas/Names and
--                   Schemas/QuantityPattern
--   Lifespan        app/main.py: create_app.lifespan
--   Cli             app/cli.py: run and _key_values in Cli/Run, _deployment_path in Cli/Quote
--   Logging         app/logging_config.py and app/observability.py: what the formatters write
--
-- How they interact: the routes use the registry and the gateway; the worker uses the queue; what a
-- client sees of a failure is an ApiError, and the command line prints its message.
--
-- Conventions. Code outside the repository is a record of operations and laws that the definitions
-- take as a parameter: Redis, Codec, Clock (Python's repr and Lua's tonumber of a time, in ticks),
-- Database (the SQLAlchemy session with its unique and foreign-key constraints), Cluster (the
-- Kubernetes client), Schemas (pydantic's validators), Unicode (the character database) and Floats
-- (doubles with math.exp). A module of tests fills each of them with functions.
-- State is passed: a method of the queue is an action over a store with a schedule of faults, by which
-- each Redis call is answered, refused, or executed with its reply lost; a method of the repository is
-- an action over the committed rows, with a function that says what other sessions commit before each
-- statement. Errors are values. An exception that the code does not catch is a value too where a
-- definition can meet one (Worker.crashed, Deployments.Ready.uncaught).
-- Every loop recurs over its messages, the characters of a text, the entries of a list, or the clock
-- readings of its rounds. Fuel is only used to divide a number by two or ten (Metrics), where the number
-- itself is fuel enough. Counts are natural numbers and settings integers; Python's do not overflow.
-- The times that the scripts get are texts, the lease and the capacity are numbers rather than their
-- decimal texts. Durations are whole ticks of a clock that never goes back. Header values, request ids,
-- bodies and the URLs of the command line are lists of code points.
--
-- Not modelled: the expiry of records while clients interleave (Queue/Steps), database outages, the
-- paged lists, argparse, the wiring of FastAPI and the set-up of logging, which are calls into libraries.
-- The controller is a Go program of its own.
pub mod Prelude
pub mod Json
pub mod Errors
pub mod Redis
pub mod Queue
pub mod Worker
pub mod Http
pub mod Registry
pub mod Readiness
pub mod Kubernetes
pub mod Deployments
pub mod AsyncRoutes
pub mod Metrics
pub mod Settings
pub mod Schemas
pub mod Runtime
pub mod Lifespan
pub mod Cli
pub mod Logging
