-- ===== src/Processor/Writes.antt =====
-- The write helpers of domain_processor.py. Each opens a session, changes the database and commits,
-- so it is a function on the committed database. `now` is the clock in the session.
use domain_process_e2e.Prelude.{
  ℕ, ◌+◌, Bool, true, false, leb, ◌==◌, if◌then◌else◌, Option, none, some, update_where,
}
use domain_process_e2e.Model.{
  TaskStatus, pending, failed, Category, retryable, transient, ErrorCode, category_error,
  max_attempts_exceeded, Message, exceeded_by, ErrorPayload, Domain, Task, Db,
}
use domain_process_e2e.Tasks
use domain_process_e2e.Tasks.{backoff_delay}
use domain_process_e2e.Jobs.{check_and_update_job_status}
use domain_process_e2e.Processor.{should_soft_deactivate}

abbrev is_retryable_category : Category → Bool
is_retryable_category retryable = true
is_retryable_category _ = false

-- the `error_payload` of a failed task
abbrev pub payload : Category → Message → ErrorPayload
payload category error = record {
  code = category_error category;
  message = error;
  retryable = is_retryable_category category;
}

abbrev pub with_status : TaskStatus → ℕ → Task → Task
with_status s now t = record t { status = s; updated_at = now }

abbrev pub fail_with : Category → Message → ℕ → Task → Task
fail_with category error now t = record t {
  status = failed;
  updated_at = now;
  error_payload = some (payload category error);
}

-- Write one task, and run the completion check on its job.
unfoldable pub write_task : (Task → Task) → ℕ → ℕ → Db → Option Task → Db
write_task f task_id now db none = db
write_task f task_id now db (some task) =
    check_and_update_job_status task.job_id now
      (record db { tasks = Tasks.update f task_id db.tasks })

-- _write_complete_task and _complete_task
unfoldable pub write_complete_task : ℕ → TaskStatus → ℕ → Db → Db
unfolding write_task
write_complete_task task_id s now db =
    write_task (with_status s now) task_id now db (Tasks.get db.tasks task_id)

-- _write_fail_task
unfoldable pub write_fail_task : ℕ → Message → Category → ℕ → Db → Db
unfolding write_task
write_fail_task task_id error category now db =
    write_task (fail_with category error now) task_id now db (Tasks.get db.tasks task_id)

abbrev pub is_domain : ℕ → Domain → Bool
is_domain domain_id d = d.id == domain_id

-- `if domain is not None and domain.is_active: …`
abbrev pub deactivate : ℕ → Domain → Domain
deactivate now d =
    if d.is_active
    then record d { is_active = false; deactivated_at = some now; updated_at = now }
    else d

unfoldable pub deactivate_domain : ℕ → ℕ → Db → Db
deactivate_domain domain_id now db = record db {
  domains = update_where (is_domain domain_id) (deactivate now) db.domains;
}

-- _write_fail_task_with_deactivation
unfoldable pub write_fail_task_with_deactivation :
    ℕ → ℕ → Message → Category → ErrorCode → ℕ → Db → Db
unfolding write_fail_task deactivate_domain
write_fail_task_with_deactivation task_id domain_id error category error_code now db =
    let db' = write_fail_task task_id error category now db in
    if should_soft_deactivate category error_code then deactivate_domain domain_id now db' else db'

abbrev pub exhaust : ℕ → Message → ℕ → Task → Task
exhaust max_attempts error now t = record t {
  status = failed;
  lease_expires_at = none;
  updated_at = now;
  error_payload = some (record {
    code = max_attempts_exceeded;
    message = exceeded_by max_attempts error;
    retryable = false;
  });
}

abbrev pub postpone : (ℕ → ℕ) → Message → ℕ → Task → Task
postpone jitter error now t = record t {
  status = pending;
  lease_expires_at = none;
  updated_at = now;
  error_payload =
      some (record { code = category_error transient; message = error; retryable = true });
  next_attempt_at = now + (backoff_delay t.attempts + jitter t.id);
}

unfoldable pub reschedule : ℕ → (ℕ → ℕ) → ℕ → Message → ℕ → Db → Option Task → Db
unfolding write_task deactivate_domain
reschedule max_attempts jitter task_id error now db none = db
reschedule max_attempts jitter task_id error now db (some task) =
    if leb max_attempts task.attempts
    then (let db' = write_task (exhaust max_attempts error now) task_id now db (some task) in
        if should_soft_deactivate transient max_attempts_exceeded
        then deactivate_domain task.domain_id now db'
        else db')
    else record db { tasks = Tasks.update (postpone jitter error now) task_id db.tasks }

-- _write_reschedule_task
unfoldable pub write_reschedule_task : ℕ → (ℕ → ℕ) → ℕ → Message → ℕ → Db → Db
unfolding reschedule
write_reschedule_task max_attempts jitter task_id error now db =
    reschedule max_attempts jitter task_id error now db (Tasks.get db.tasks task_id)
