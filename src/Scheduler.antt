-- ===== src/Scheduler.antt =====
-- src/domain_processing_service/scheduler.py, RefreshScheduler: its flag, and one tick, which makes
-- refresh tasks for the domains that are due.
pub mod Tick
use domain_process_e2e.Prelude.{
  ℕ, min, Bool, true, false, List, [], ◌∷◌, ◌==◌, if◌then◌else◌, Option, none, some,
}
use domain_process_e2e.Model.{Task, Db}
use domain_process_e2e.Tasks.{create_refresh_tasks}
use domain_process_e2e.Details.{get_domains_needing_refresh}
use domain_process_e2e.Queue.{BoundedQueue, available_capacity}

-- `_running`, and whether a loop has been made and not been cancelled
pub record Scheduler : Type 0 where
  pub running : Bool
  pub looping : Bool

unfoldable pub start : Scheduler → Scheduler
start s = if s.running then s else record { running = true; looping = true }

unfoldable pub stop : Scheduler → Scheduler
stop s = if s.running then record { running = false; looping = false } else s

-- The queue of the worker pool as it is at the two reads of its capacity, if there is a pool.
abbrev pub Reads : Type 0
Reads = Option (BoundedQueue Task × BoundedQueue Task)

abbrev pub is_blocked : Reads → Bool
is_blocked none = false
is_blocked (some (q, _)) = available_capacity q == 0

unfoldable pub max_tasks : ℕ → Reads → ℕ
max_tasks worker_concurrency none = worker_concurrency
max_tasks worker_concurrency (some (_, q)) = min worker_concurrency (available_capacity q)

-- the ids that uuid4 gives, with the domains
abbrev pub with_ids : (ℕ → ℕ) → List ℕ → List (ℕ × ℕ)
with_ids ids [] = []
with_ids ids (d ∷ ds) = (ids d, d) ∷ with_ids ids ds

-- the domains that the tick finds
unfoldable pub candidates : ℕ → Reads → ℕ → Db → List ℕ
candidates worker_concurrency reads now db =
    get_domains_needing_refresh (max_tasks worker_concurrency reads) now db.domains db.details

-- the commit, or the rollback
abbrev pub with_refreshed : Db → Option (List Task × List Task) → Db
with_refreshed db none = db
with_refreshed db (some (tasks, created)) = record db { tasks = tasks }

-- the tick when neither read finds the queue full and no statement fails,
-- but the query for open refresh tasks, whose exception rolls the session back
unfoldable pub refreshed : (ℕ → ℕ) → ℕ → Reads → ℕ → Db → Db
unfolding candidates
refreshed ids worker_concurrency reads now db =
    with_refreshed db (
      create_refresh_tasks now (with_ids ids (candidates worker_concurrency reads now db)) db.tasks)

-- _tick. `ids` is the id that uuid4 gives for the task of a domain, `db_error` says that a
-- statement or the commit raises.
unfoldable pub tick : (ℕ → ℕ) → ℕ → Reads → Bool → ℕ → Db → Db
unfolding refreshed
tick ids worker_concurrency reads db_error now db =
    if is_blocked reads
    then db
    else if max_tasks worker_concurrency reads == 0
    then db
    else if db_error
    then db
    else refreshed ids worker_concurrency reads now db
