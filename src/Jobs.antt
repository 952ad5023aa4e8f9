-- ===== src/Jobs.antt =====
-- src/domain_processing_service/repositories/job.py, and the completion check of
-- domain_processor.py, which every write to a task runs in its session.
pub mod Completion
use domain_process_e2e.Prelude.{
  ℕ, zero, Bool, true, false, ◌&&◌, List, [], ◌∷◌, ◌++◌, ◌==◌, if◌then◌else◌, Option, none, some,
  is_some, find, filter, length, update_where,
}
use domain_process_e2e.Model.{TaskStatus, pending, processing, completed, failed, Job, Task, Db}
use domain_process_e2e.Tasks.{is_open, is_pending, of_job}

unfoldable pub create : Job → List Job → List Job
create job table = table ++ job ∷ []

unfoldable pub get : List Job → ℕ → Option Job
get table job_id = find (λ j. j.id == job_id) table

abbrev pub is_row : ℕ → Job → Bool
is_row job_id j = j.id == job_id

abbrev pub set_status : TaskStatus → ℕ → Job → Job
set_status s now j = record j { status = s; updated_at = now }

-- update_status: the new table, and whether there is such a job
unfoldable pub update_status : ℕ → TaskStatus → ℕ → List Job → List Job × Bool
unfolding get
update_status job_id s now table =
    if is_some (get table job_id)
    then (update_where (is_row job_id) (set_status s now) table, true)
    else (table, false)

unfoldable pub exists : List Job → ℕ → Bool
unfolding get
exists table job_id = is_some (get table job_id)

-- SELECT count(*) of the job's tasks that are PENDING or PROCESSING
unfoldable pub non_terminal_count : ℕ → List Task → ℕ
non_terminal_count job_id tasks = length (filter (λ t. of_job job_id t && is_open t.status) tasks)

abbrev pub is_completed : TaskStatus → Bool
is_completed completed = true
is_completed _ = false

-- the new status of a job with so many open tasks
abbrev pub settle : ℕ → ℕ → Job → Job
settle count now job =
    if count == 0
    then (if is_completed job.status then job else set_status completed now job)
    else (if is_pending job.status then set_status processing now job else job)

-- _check_and_update_job_status
unfoldable pub check_and_update_job_status : Option ℕ → ℕ → Db → Db
unfolding non_terminal_count
check_and_update_job_status none now db = db
check_and_update_job_status (some job_id) now db = record db {
  jobs = update_where (is_row job_id) (settle (non_terminal_count job_id db.tasks) now) db.jobs;
}
