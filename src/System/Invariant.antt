-- ===== src/System/Invariant.antt =====
-- What holds of every database that the program reaches.
use domain_process_e2e.Prelude.{
  ℕ, Bool, List, ◌<◌, ◌==◌, Option, none, some, ◌≡◌, refl, sym, subst, inl, inr, Bool-cases, ◌+◌,
}
use domain_process_e2e.Model.{DomainDetail, Task, Db}
use domain_process_e2e.Queue.{BoundedQueue}
use domain_process_e2e.Tasks.{claim_tasks, recover_expired_tasks}
use domain_process_e2e.Tasks.Budget.{claim_tasks-IsTable, recover_expired_tasks-IsTable}
use domain_process_e2e.Scheduler.{Reads, tick}
use domain_process_e2e.Pipeline.{Env, process_task}
use domain_process_e2e.Pipeline.Keeps.{Laws, Stored}
use domain_process_e2e.Pipeline.Run.{process_task-Kept}
use domain_process_e2e.Pipeline.Budget.{Within, process_task-Within}
use domain_process_e2e.Manager.{Settings, batch_size, ends_with, claim_cycle, recovery_cycle}
use domain_process_e2e.Routes.Create.{Request, Ids, Service}
use domain_process_e2e.Routes.CreateJob.{Stage, create_job}
use domain_process_e2e.Routes.Commits.{by_create_job}
use domain_process_e2e.System.{
  Upserts, after_round, IsFresh, AreFresh, Reach, start, request_job, claim_round, recovery_round,
  scheduler_tick, task_run,
}
use domain_process_e2e.System.Schema.{IsReferential}
use domain_process_e2e.System.References.{
  SameKeys, SameKeys-IsReferential, write_complete_task-SameKeys, write_fail_task-SameKeys,
  write_fail_deactivating-SameKeys, write_reschedule_task-SameKeys, claim_tasks-SameKeys,
  recover_expired_tasks-SameKeys,
}
use domain_process_e2e.System.Rewrites.{Stored-Distinct}
use domain_process_e2e.System.Requests.{request-IsTable, request-IsReferential}
use domain_process_e2e.System.Refreshes.{tick-IsTable, tick-IsReferential}

-- What a round has committed, once it has tried to dispatch.
ends_with-commits :
    (db committed : Db) (o : Option (BoundedQueue Task))
    → after_round db (ends_with committed o) ≡ committed
ends_with-commits db committed none = refl
ends_with-commits db committed (some q) = refl

module _ (settings : Settings) (P : Db → Type 0) (db : Db) (queue : BoundedQueue Task) (now : ℕ)
    (locked : ℕ → Bool) (old : P db) where
  by_claim_round :
      P (record db {
        tasks =
            (claim_tasks
              (batch_size settings queue)
              (now + settings.task_lease_seconds)
              now
              locked
              db.tasks).0;
      })
      → P (after_round db (claim_cycle settings now locked db queue))
  unfolding claim_cycle
  by_claim_round new = elim (Bool-cases (batch_size settings queue == 0)) [
    | inl e ↦ rw e old
    | inr e ↦ rw e (rw (ends_with-commits db _ _) new)
  ]

  by_recovery_round :
      (jitter : ℕ → ℕ) (later : ℕ)
      → P (record db {
        tasks =
            (recover_expired_tasks settings.max_attempts jitter
              (batch_size settings queue)
              now
              later
              locked
              db.tasks).0;
      })
      → P (after_round db (recovery_cycle settings jitter now later locked db queue))
  unfolding recovery_cycle
  by_recovery_round jitter later new = elim (Bool-cases (batch_size settings queue == 0)) [
    | inl e ↦ rw e old
    | inr e ↦ rw e (rw (ends_with-commits db _ _) new)
  ]

-- A property of the keys is kept by the statements of a run.
SameKeys-Laws :
    (P : Db → Type 0) (env : Env)
    → ((a b : Db) → SameKeys a b → P a → P b)
    → ((i : ℕ) (db : Db) → P db → P (env.other i db))
    → ((db : Db) (table : List DomainDetail)
        → Stored env db.details table
        → P db
        → P (record db { details = table }))
    → Laws P env
SameKeys-Laws P env kept others details_kept = record {
  others = others;
  completes = λ i now db. kept db _ (write_complete_task-SameKeys i now db);
  fails = λ i error category now db. kept db _ (write_fail_task-SameKeys i error category now db);
  deactivates = λ i d error category code now db.
      kept db _ (write_fail_deactivating-SameKeys i d error category code now db);
  reschedules = λ i error now db.
      kept db _ (write_reschedule_task-SameKeys env.max_attempts env.jitter i error now db);
  details = details_kept;
}

module _ (service : Service) (settings : Settings) where
  -- A property of the keys that requests and ticks keep is kept by all that the program does.
  module _ (P : Db → Type 0) (kept : (a b : Db) → SameKeys a b → P a → P b)
      (requested : (ids : Ids) (now : ℕ) (down : Bool) (fault : Option Stage) (request : Request)
          (db : Db)
        → AreFresh ids db
        → P db
        → P (create_job service ids now down fault request db).1)
      (ticked : (ids : ℕ → ℕ) (reads : Reads) (db_error : Bool) (now : ℕ) (db : Db)
        → IsFresh ids db
        → P db
        → P (tick ids settings.worker_concurrency reads db_error now db))
      (details_kept : (env : Env) (db : Db) (table : List DomainDetail)
        → ((i : ℕ) (t : List DomainDetail) → Upserts t (env.others i t))
        → Stored env db.details table
        → P db
        → P (record db { details = table })) where
    pub Reach-Kept : {a b : Db} → Reach service settings a b → P a → P b
    Reach-Kept start h = h
    Reach-Kept (request_job {db1 = db} ids now down fault request ids_fresh r) h =
        requested ids now down fault request db ids_fresh (Reach-Kept r h)
    Reach-Kept (claim_round {db1 = db} now locked queue r) h =
        let old = Reach-Kept r h in
        by_claim_round settings P db queue now locked old
          (kept db _ (claim_tasks-SameKeys _ _ now locked db) old)
    Reach-Kept (recovery_round {db1 = db} jitter now later locked queue r) h =
        let old = Reach-Kept r h in
        by_recovery_round settings P db queue now locked old jitter later (
          kept db _
            (recover_expired_tasks-SameKeys settings.max_attempts jitter _ now later locked db) old)
    Reach-Kept (scheduler_tick {db1 = db} ids reads db_error now ids_fresh r) h =
        ticked ids reads db_error now db ids_fresh (Reach-Kept r h)
    Reach-Kept (task_run {db1 = db} env request task same others writes r) h =
        process_task-Kept P env
          (SameKeys-Laws P env kept (λ i db. Reach-Kept (others i db))
            (λ db table. details_kept env db table writes))
          request task db (Reach-Kept r h)

  -- Whatever requests, rounds, ticks and runs follow each other, also between the sessions of a
  -- run: a database whose keys are in order stays so.
  pub Reach-IsReferential :
      (a b : Db) → Reach service settings a b → IsReferential a → IsReferential b
  Reach-IsReferential a b =
      Reach-Kept IsReferential SameKeys-IsReferential
        (λ ids now down fault request db ids_fresh h.
          by_create_job service ids now (λ r. IsReferential r.1) db (λ code. h) (λ j m. h)
            (λ invalid db0 db1 started filled.
              request-IsReferential ids now db ids_fresh invalid db0 db1 started filled h)
            down fault request)
        (λ ids reads db_error now db.
          tick-IsReferential ids settings.worker_concurrency reads db_error now db)
        (λ env db table writes s h. record {
          jobs = h.jobs;
          domains = h.domains;
          tasks = h.tasks;
          records = h.records;
          details = record { domains = Stored-Distinct env writes s h.details.domains };
        })

  -- Likewise for a table of tasks within its attempts.
  pub Reach-IsTable :
      {a b : Db}
      → 0 < settings.max_attempts
      → Reach service settings a b
      → Within settings.max_attempts a
      → Within settings.max_attempts b
  Reach-IsTable some_tries start h = h
  Reach-IsTable some_tries (request_job {db1 = db} ids now down fault request ids_fresh r) h =
      let old = Reach-IsTable some_tries r h in
      by_create_job service ids now (λ r. Within settings.max_attempts r.1) db (λ code. old)
        (λ j m. old)
        (λ invalid db0 db1 started filled.
          request-IsTable ids now db ids_fresh invalid db0 db1 started filled settings.max_attempts
            some_tries old)
        down fault request
  Reach-IsTable some_tries (claim_round {db1 = db} now locked queue r) h =
      let old = Reach-IsTable some_tries r h in
      by_claim_round settings (Within settings.max_attempts) db queue now locked old
        (claim_tasks-IsTable settings.max_attempts _ _ now locked db.tasks old)
  Reach-IsTable some_tries (recovery_round {db1 = db} jitter now later locked queue r) h =
      let old = Reach-IsTable some_tries r h in
      by_recovery_round settings (Within settings.max_attempts) db queue now locked old jitter later
        (recover_expired_tasks-IsTable settings.max_attempts jitter _ now later locked db.tasks old)
  Reach-IsTable some_tries (scheduler_tick {db1 = db} ids reads db_error now ids_fresh r) h =
      tick-IsTable ids settings.worker_concurrency reads db_error now db ids_fresh
        settings.max_attempts some_tries (Reach-IsTable some_tries r h)
  Reach-IsTable some_tries (task_run {db1 = db} env request task same others writes r) h =
      subst (λ n. Within n (process_task env request task db).1) same
        (process_task-Within env
          (λ i db v.
            subst (λ n. Within n (env.other i db)) (sym same)
              (Reach-IsTable some_tries (others i db) (subst (λ n. Within n db) same v)))
          request task db (subst (λ n. Within n db) (sym same) (Reach-IsTable some_tries r h)))
