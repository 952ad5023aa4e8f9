-- ===== src/Lib.antt =====
-- The verification library of the domain processing service (src/domain_processing_service).
--
-- The program. Clients submit domain names; the API normalises them (normalization.py) and stores a
-- job with one task for each (models.py, repositories/). A task manager (manager.py) claims tasks
-- from the database under a lease and puts them in a bounded queue (worker/worker.py), and recovers
-- tasks whose lease has expired. A worker runs a task (domain_processor.py): it reuses a fresh
-- detail, or takes the domain's lock, resolves the name (dns.py), validates the addresses
-- (ip_validator.py), probes the site (http_client.py), and stores what it observed with optimistic
-- concurrency control (repositories/domain_detail.py). A failure is rescheduled or recorded, and a
-- permanent one deactivates the domain. A scheduler (scheduler.py) makes tasks for the details that
-- are due, and a coordinator (shutdown.py) closes the API and stops the loops.
--
-- The files.
--   Prelude        Boolean tests on numbers, list functions and their lemmas, and sorting.
--   Text           a `str` or `bytes` as the list of its code points, with the methods used.
--   Normalization  normalization.py: normalize_domain, deduplicate_domains.
--   Model          models.py: the tables as records; Db is the database, a list of rows for each.
--   Tasks          repositories/task.py: a method is a function on the table of tasks. The rows that
--                  other transactions lock are a Boolean function, which SKIP LOCKED leaves out.
--   Jobs           repositories/job.py, and _check_and_update_job_status of domain_processor.py.
--   Details        repositories/domain_detail.py; a conflict is a value, not an exception.
--   Domains        repositories/domain.py.
--   Ip             ip_validator.py: an address is its version and its number.
--   Dns            dns.py: `query` is what aiodns answers to a lookup.
--   Http           http_client.py: an `Attempt` is what one request meets.
--   Queue          BoundedQueue of worker/worker.py; an operation that would wait gives `none`.
--   Processor      the decisions of domain_processor.py, and in Writes its write helpers.
--   Pipeline       process_task of domain_processor.py. An action takes the committed database to
--                  an outcome, a value or an exception, and the new database. Each session of the
--                  code is a `session`, numbered in the order of the source: before it other
--                  transactions commit what `Env.other` says, and it raises, and is rolled back,
--                  if `Env.fault` says so. Between the statements of the last session other
--                  writers change the details as `Env.others` says; what the session has loaded
--                  stays as it is, which the version of the second attempt depends on. Keeps and
--                  Run have what every statement keeps.
--   Idempotency    repositories/idempotency.py; an insert under a key that is taken gives `none`.
--   Routes         routes.py and dtos.py. Create and CreateJob are create_job: `populate` is its
--                  block of rows, `start_job` what it does with the key, `try_block` the
--                  transaction on a `Session`, with what is committed and what is pending. Atomic
--                  has the same transaction in one step. GetJob is get_job, on the pages of Routes
--                  and the Cursor of dtos.py. Walk and Api have a client that follows the cursors;
--                  Dict, Names, Rows, Created, Total, Started, Replay, Commits, Fresh and Missing
--                  are about create_job.
--   Lock           domain_lock.py, over a record of the Redis commands. Owners has their behaviour
--                  as hypotheses, and the table of owners that the lock refines; Exclusion the steps
--                  of the other workers; Bracket the whole of `async with`.
--   Scheduler      _tick, start and stop of scheduler.py.
--   Workers        Worker and WorkerPool of worker/worker.py: their flags, and the rounds of the
--                  loop on the queue and the database. Phase9 is the handler of the tasks.
--   Shutdown       shutdown.py, and start and stop of manager.py. How the wait for the workers ends
--                  is an argument. Components says what it is for each part to run; Sequence has
--                  the events after the start as a relation.
--   Manager        _claim_cycle and _recovery_cycle of manager.py, as functions of the database and
--                  the queue.
--   App            app.py: what create_app makes, and its lifespan.
--   Database       database.py: whether the engine and the session maker are there; the database in
--                  the lifespan of app.py and in its readiness.
--   Metrics        metrics.py: a collector is the calls made of prometheus_client, in their order.
--   Logging        logging.py: a payload is a list of keys and values, in the order of the dict.
--   Middleware     middleware.py: the world is the context variable and the calls of log_event.
--   System         the parts together, on one database. `Reach a b` says that requests, rounds of the
--                  task manager, ticks and runs of tasks lead from `a` to `b`; the sessions of a run
--                  have other such steps between them. Schema has the keys that the migration in
--                  alembic/versions declares; References, Added, Requests, Rewrites and
--                  Refreshes show which step keeps them, Invariant and Promises what follows for
--                  every database that is reached, and Cycle and Lookup what a worker does there.
--   Config         config.py: the validators and the bounds of the settings.
--   Examples       concrete inputs, and the theorems at them.
--
-- Numbers are natural; times are seconds. Each loop of the code is over a list, and is structural
-- recursion; only the clients that follow cursors have a bound on their pages, and more than the
-- tasks is enough, and the workers' loop one on its rounds, where as many as the queue has tasks
-- empty it. The clock, the jitter of the backoff and the ids of uuid4 are arguments.
--
-- Parameters, since their code is not in the repository: what PostgreSQL's other transactions do
-- (and that it keeps nothing of a transaction that is not committed), what a session of SQLAlchemy
-- keeps of a row that it has loaded (see `held_version`), str.lower and the idna codec (with their
-- documented behaviour on ASCII), the parser of ipaddress (which gives 32 or 128 bits), aiodns and
-- httpx, Redis and the connection to it (SET NX, GET, DEL, and a call that runs as a whole or not
-- at all), SHA256 of the names, the order of a set, and the texts of times, ids, JSON and base64
-- (each reader reads what its writer writes), the making of a log record from a message and its
-- extra fields, and the headers of a response. In System, uuid4 gives ids that are different and
-- that no row has, and other writers change the details within a session by upsert_with_occ.
--
-- Not modelled: _extract_title of http_client.py, a search with regular expressions, which is a
-- parameter; in a run of the pipeline, whether it acquires the lock is a parameter, and an
-- exception of Redis is not among the faults; the cancelling of tasks by asyncio, but for the end
-- of the grace period, and how it interleaves the workers; the installation of signal handlers;
-- which events each part logs, the gauges that nothing changes, and the setup of the root logger;
-- the foreign key of the details, which a run writes for the domain of its task; and the wiring of
-- FastAPI, pydantic and SQLAlchemy.
pub mod Prelude
pub mod Text
pub mod Normalization
pub mod Model
pub mod Tasks
pub mod Ip
pub mod Dns
pub mod Http
pub mod Jobs
pub mod Details
pub mod Queue
pub mod Processor
pub mod Domains
pub mod Pipeline
pub mod Manager
pub mod Examples
pub mod Idempotency
pub mod Lock
pub mod Scheduler
pub mod Shutdown
pub mod Workers
pub mod Metrics
pub mod Middleware
pub mod Logging
pub mod App
pub mod Database
pub mod System
pub mod Config
pub mod Routes
