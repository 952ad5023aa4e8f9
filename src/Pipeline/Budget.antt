-- ===== src/Pipeline/Budget.antt =====
-- The run of a task keeps the table of tasks within its attempt budget.
use domain_process_e2e.Prelude.{
  ℕ, ◌<◌, Bool, true, false, ◌==◌, leb, if◌then◌else◌, Option, none, some, ◌≡◌, refl, sym, ap, ◌∙◌,
  Bool-cases, inl, inr, arith, find-Memᴰ, ==→eq,
}
use mathlib.Core.List.{Memᴰ}
use domain_process_e2e.Text.{Text}
use domain_process_e2e.Model.{
  Task, completed, Db, Message, Category, ErrorCode, transient, max_attempts_exceeded,
}
use domain_process_e2e.Tasks
use domain_process_e2e.Tasks.Budget.{IsTaskValid, IsTable, update-IsTable}
use domain_process_e2e.Jobs.{check_and_update_job_status}
use domain_process_e2e.Processor.{should_soft_deactivate}
use domain_process_e2e.Processor.Writes.{
  with_status, fail_with, exhaust, postpone, write_task, write_complete_task, write_fail_task,
  write_fail_task_with_deactivation, deactivate_domain, reschedule, write_reschedule_task,
}
use domain_process_e2e.Pipeline.{Env, process_task}
use domain_process_e2e.Http.{Scheme, Attempt}
use domain_process_e2e.Pipeline.Keeps.{Laws}
use domain_process_e2e.Pipeline.Run.{process_task-Kept}

module _ (max_attempts : ℕ) where
  -- The table of tasks is within its budget.
  abbrev pub Within : Db → Type 0
  Within db = IsTable max_attempts db.tasks

  check-Within :
      (job_id : Option ℕ) (now : ℕ) (db : Db)
      → Within db
      → Within (check_and_update_job_status job_id now db)
  unfolding check_and_update_job_status
  check-Within none now db h = h
  check-Within (some j) now db h = h

  write_task-Within :
      (f : Task → Task) (task_id now : ℕ) (db : Db) (o : Option Task)
      → ((t : Task) → (f t).id ≡ t.id)
      → ((t : Task) → IsTaskValid max_attempts t → IsTaskValid max_attempts (f t))
      → Within db
      → Within (write_task f task_id now db o)
  unfolding write_task
  write_task-Within f task_id now db none keeps_id right h = h
  write_task-Within f task_id now db (some task) keeps_id right h =
      check-Within task.job_id now (record db { tasks = Tasks.update f task_id db.tasks })
        (update-IsTable max_attempts f task_id db.tasks keeps_id (λ t m e v. right t v) h)

  with_completed-valid :
      (now : ℕ) (t : Task)
      → IsTaskValid max_attempts t
      → IsTaskValid max_attempts (with_status completed now t)
  with_completed-valid now t v = ground arith

  fail_with-valid :
      (category : Category) (error : Message) (now : ℕ) (t : Task)
      → IsTaskValid max_attempts t
      → IsTaskValid max_attempts (fail_with category error now t)
  fail_with-valid category error now t v = ground arith

  exhaust-valid :
      (error : Message) (now : ℕ) (t : Task)
      → IsTaskValid max_attempts t
      → IsTaskValid max_attempts (exhaust max_attempts error now t)
  exhaust-valid error now t v = ground arith

  postpone-valid :
      (jitter : ℕ → ℕ) (error : Message) (now : ℕ) (t : Task)
      → t.attempts < max_attempts
      → IsTaskValid max_attempts t
      → IsTaskValid max_attempts (postpone jitter error now t)
  postpone-valid jitter error now t room v = ground arith

  pub write_complete_task-Within :
      (task_id now : ℕ) (db : Db)
      → Within db
      → Within (write_complete_task task_id completed now db)
  unfolding write_complete_task
  write_complete_task-Within task_id now db h =
      write_task-Within (with_status completed now) task_id now db (Tasks.get db.tasks task_id)
        (λ t. refl) (with_completed-valid now) h

  pub write_fail_task-Within :
      (task_id : ℕ) (error : Message) (category : Category) (now : ℕ) (db : Db)
      → Within db
      → Within (write_fail_task task_id error category now db)
  unfolding write_fail_task
  write_fail_task-Within task_id error category now db h =
      write_task-Within (fail_with category error now) task_id now db (Tasks.get db.tasks task_id)
        (λ t. refl) (fail_with-valid category error now) h

  deactivating-Within :
      (b : Bool) (domain_id now : ℕ) (db : Db)
      → Within db
      → Within (if b then deactivate_domain domain_id now db else db)
  unfolding deactivate_domain
  deactivating-Within true domain_id now db h = h
  deactivating-Within false domain_id now db h = h

  pub write_fail_deactivating-Within :
      (task_id domain_id : ℕ) (error : Message) (category : Category) (code : ErrorCode) (now : ℕ)
      (db : Db)
      → Within db
      → Within (write_fail_task_with_deactivation task_id domain_id error category code now db)
  unfolding write_fail_task_with_deactivation
  write_fail_deactivating-Within task_id domain_id error category code now db h =
      deactivating-Within (should_soft_deactivate category code) domain_id now
        (write_fail_task task_id error category now db)
        (write_fail_task-Within task_id error category now db h)

  reschedule-Within :
      (jitter : ℕ → ℕ) (task_id : ℕ) (error : Message) (now : ℕ) (db : Db) (o : Option Task)
      → Tasks.get db.tasks task_id ≡ o
      → Within db
      → Within (reschedule max_attempts jitter task_id error now db o)
  unfolding reschedule Tasks.get
  reschedule-Within jitter task_id error now db none e h = h
  reschedule-Within jitter task_id error now db (some task) e h =
      elim (Bool-cases (leb max_attempts task.attempts)) [
        | inl over ↦ rw over (
            deactivating-Within (should_soft_deactivate transient max_attempts_exceeded)
              task.domain_id now
              (write_task (exhaust max_attempts error now) task_id now db (some task))
              (write_task-Within (exhaust max_attempts error now) task_id now db (some task)
                (λ t. refl) (exhaust-valid error now) h))
        | inr room ↦ rw room (
            update-IsTable max_attempts (postpone jitter error now) task_id db.tasks (λ t. refl)
              (λ t m q v. postpone-valid jitter error now t (has_room t m q room) v) h)
      ]
    where
      has_room :
          (t : Task)
          → Memᴰ t db.tasks
          → t.id ≡ task_id
          → leb max_attempts task.attempts ≡ false
          → t.attempts < max_attempts
      has_room t m q room =
          let (n, hit) = find-Memᴰ (λ (t : Task). t.id == task_id) db.tasks {y = task} e in
          let same : t ≡ task = h.unique t task m n (q ∙ sym (==→eq task.id task_id hit)) in
          let attempts_same : t.attempts ≡ task.attempts = ap (λ (t : Task). t.attempts) same in
          ground arith

  pub write_reschedule_task-Within :
      (jitter : ℕ → ℕ) (task_id : ℕ) (error : Message) (now : ℕ) (db : Db)
      → Within db
      → Within (write_reschedule_task max_attempts jitter task_id error now db)
  unfolding write_reschedule_task
  write_reschedule_task-Within jitter task_id error now db h =
      reschedule-Within jitter task_id error now db (Tasks.get db.tasks task_id) refl h

-- The laws of the attempt budget.
pub Within-Laws :
    (env : Env)
    → ((i : ℕ) (db : Db) → Within env.max_attempts db → Within env.max_attempts (env.other i db))
    → Laws (Within env.max_attempts) env
Within-Laws env others_keep = record {
  others = others_keep;
  completes = write_complete_task-Within env.max_attempts;
  fails = write_fail_task-Within env.max_attempts;
  deactivates = write_fail_deactivating-Within env.max_attempts;
  reschedules = write_reschedule_task-Within env.max_attempts env.jitter;
  details = λ db details s h. h;
}

-- If what other transactions commit keeps the table of tasks valid (ids are unique, no task is past
-- its attempts, a PENDING task has attempts left and no lease, a PROCESSING task has been counted
-- and holds a lease), the run of a task keeps it valid.
pub process_task-Within :
    (env : Env)
    (others_keep : (i : ℕ) (db : Db)
      → Within env.max_attempts db
      → Within env.max_attempts (env.other i db))
    (request : Text → Scheme → Attempt) (task : Task) (db : Db)
    → Within env.max_attempts db
    → Within env.max_attempts (process_task env request task db).1
process_task-Within env others_keep request task db h =
    process_task-Kept (Within env.max_attempts) env (Within-Laws env others_keep) request task db h
