-- ===== src/System/Schema.antt =====
-- alembic/versions/20260822_0001_initial_schema.py: the keys that the schema declares for the
-- tables of jobs, domains, tasks and idempotency records, and the primary key of the details. The
-- database holds no row that breaks one.
use domain_process_e2e.Prelude.{ℕ, List, map, some, ◌≡◌}
use mathlib.Core.List.{Memᴰ}
use domain_process_e2e.Prelude.Distinct.{Distinct}
use domain_process_e2e.Text.{Text}
use domain_process_e2e.Model.{Job, Domain, Task, DomainDetail, IdempotencyRecord, Db}
use domain_process_e2e.Routes.Create.{name_of}
use domain_process_e2e.Routes.Fresh.{task_id, domain_id}
use domain_process_e2e.System.{job_id}

abbrev pub key_of : IdempotencyRecord → Text × Text
key_of r = (r.client_id, r.idempotency_key)

pub record JobKeys (jobs : List Job) : Type 0 where
  pub ids : Distinct (map job_id jobs)

-- idx_domain_normalized is unique.
pub record DomainKeys (domains : List Domain) : Type 0 where
  pub ids : Distinct (map domain_id domains)
  pub names : Distinct (map name_of domains)

pub record TaskKeys (jobs : List Job) (domains : List Domain) (tasks : List Task) : Type 0 where
  pub ids : Distinct (map task_id tasks)
  pub job : (t : Task) → Memᴰ t tasks → (j : ℕ) → t.job_id ≡ some j → Memᴰ j (map job_id jobs)
  pub domain : (t : Task) → Memᴰ t tasks → Memᴰ t.domain_id (map domain_id domains)

pub record RecordKeys (jobs : List Job) (records : List IdempotencyRecord) : Type 0 where
  pub keys : Distinct (map key_of records)
  pub job : (r : IdempotencyRecord) → Memᴰ r records → Memᴰ r.job_id (map job_id jobs)

abbrev pub domain_of : DomainDetail → ℕ
domain_of d = d.domain_id

pub record DetailKeys (details : List DomainDetail) : Type 0 where
  pub domains : Distinct (map domain_of details)

pub record IsReferential (db : Db) : Type 0 where
  pub jobs : JobKeys db.jobs
  pub domains : DomainKeys db.domains
  pub tasks : TaskKeys db.jobs db.domains db.tasks
  pub records : RecordKeys db.jobs db.records
  pub details : DetailKeys db.details
