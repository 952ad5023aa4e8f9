-- ===== src/System.antt =====
-- The program as a whole: the handlers, the loops and the workers, all on one database. Each step
-- is one of them, whenever it runs; the sessions of a run of process_task have other steps between
-- them.
pub mod Schema
pub mod References
pub mod Added
pub mod Requests
pub mod Rewrites
pub mod Refreshes
pub mod Invariant
pub mod Found
pub mod Promises
pub mod Lookup
pub mod Cycle
use domain_process_e2e.Prelude.{Option, ℕ, Bool, List, [], map, ◌≡◌}
use mathlib.Core.List.{Memᴰ}
use domain_process_e2e.Text.{Text}
use domain_process_e2e.Model.{Job, Domain, Task, DomainDetail, IdempotencyRecord, Db}
use domain_process_e2e.Details.{stored, upsert_with_occ}
use domain_process_e2e.Http.{Scheme, Attempt}
use domain_process_e2e.Queue.{BoundedQueue}
use domain_process_e2e.Scheduler.{Reads, tick}
use domain_process_e2e.Pipeline.{Env, process_task}
use domain_process_e2e.Manager.{
  Settings, Round, idle, dispatched, waiting, claim_cycle, recovery_cycle,
}
use domain_process_e2e.Routes.Create.{Request, Ids, Service, name_of}
use domain_process_e2e.Routes.CreateJob.{Stage, create_job}
use domain_process_e2e.Routes.Fresh.{IsInjective, task_id, domain_id}

abbrev pub job_id : Job → ℕ
job_id j = j.id

abbrev pub empty_db : Db
empty_db = record { jobs = []; domains = []; tasks = []; details = []; records = [] }

-- What a round has committed.
abbrev pub after_round : Db → Round → Db
after_round db idle = db
after_round db (dispatched committed queue) = committed
after_round db (waiting committed) = committed

-- What uuid4 promises of the ids of the tasks: they are different, and no row has one.
pub record IsFresh (ids : ℕ → ℕ) (db : Db) : Type 0 where
  pub injective : IsInjective ids
  pub unused : (i : ℕ) → ¬ Memᴰ (ids i) (map task_id db.tasks)

-- The same, of all the ids of a request.
pub record AreFresh (ids : Ids) (db : Db) : Type 0 where
  pub tasks : IsFresh ids.task db
  pub domains : IsInjective ids.domain
  pub domain : (i : ℕ) → ¬ Memᴰ (ids.domain i) (map domain_id db.domains)
  pub job : ¬ Memᴰ ids.job (map job_id db.jobs)

-- Writes of other transactions to the details, all by upsert_with_occ.
pub data Upserts : List DomainDetail → List DomainDetail → Type 0 where
  no_upsert : {table : List DomainDetail} → Upserts table table
  then_upsert :
      {before table after : List DomainDetail} (detail : DomainDetail) (version : ℕ)
      → upsert_with_occ detail version table ≡ stored after
      → Upserts before table
      → Upserts before after

module _ (service : Service) (settings : Settings) where
  -- `Reach a b`: the steps that other parts of the program and this one take lead from `a` to `b`.
  pub data Reach : Db → Db → Type 1 where
    start : {db : Db} → Reach db db
    request_job :
        {db db1 : Db} (ids : Ids) (now : ℕ) (down : Bool) (fault : Option Stage) (request : Request)
        → AreFresh ids db1
        → Reach db db1
        → Reach db (create_job service ids now down fault request db1).1
    claim_round :
        {db db1 : Db} (now : ℕ) (locked : ℕ → Bool) (queue : BoundedQueue Task)
        → Reach db db1
        → Reach db (after_round db1 (claim_cycle settings now locked db1 queue))
    recovery_round :
        {db db1 : Db} (jitter : ℕ → ℕ) (now later : ℕ) (locked : ℕ → Bool)
        (queue : BoundedQueue Task)
        → Reach db db1
        → Reach db (after_round db1 (recovery_cycle settings jitter now later locked db1 queue))
    scheduler_tick :
        {db db1 : Db} (ids : ℕ → ℕ) (reads : Reads) (db_error : Bool) (now : ℕ)
        → IsFresh ids db1
        → Reach db db1
        → Reach db (tick ids settings.worker_concurrency reads db_error now db1)
    task_run :
        {db db1 : Db} (env : Env) (request : Text → Scheme → Attempt) (task : Task)
        → env.max_attempts ≡ settings.max_attempts
        → ((i : ℕ) (other : Db) → Reach other (env.other i other))
        → ((i : ℕ) (table : List DomainDetail) → Upserts table (env.others i table))
        → Reach db db1
        → Reach db (process_task env request task db1).1
