-- ===== src/Manager.antt =====
-- src/domain_processing_service/manager.py, TaskManager: one round of the loop that claims tasks
-- and one of the loop that recovers expired ones. The rounds follow each other; a round that raises
-- rolls its session back and is not modelled further.
pub mod Rounds
use domain_process_e2e.Prelude.{
  ℕ, suc, ◌+◌, ◌-◌, min, Bool, true, false, List, [], ◌∷◌, ◌==◌, if◌then◌else◌, Option, none, some,
}
use domain_process_e2e.Model.{TaskStatus, pending, ErrorPayload, Domain, Task, Db}
use domain_process_e2e.Tasks.{is_pending, claim_tasks, recover_expired_tasks}
use domain_process_e2e.Processor.{is_max_attempts}
use domain_process_e2e.Processor.Writes.{deactivate_domain}
use domain_process_e2e.Queue.{BoundedQueue, put, available_capacity}

pub record Settings : Type 0 where
  pub task_lease_seconds : ℕ
  pub worker_concurrency : ℕ
  pub max_attempts : ℕ

-- How a round ends: no room in the queue, or all is dispatched, or a put waits on a full queue.
pub data Round : Type 0 where
  idle : Round
  dispatched : Db → BoundedQueue Task → Round
  waiting : Db → Round

unfoldable pub batch_size : Settings → BoundedQueue Task → ℕ
batch_size settings queue = min (available_capacity queue) settings.worker_concurrency

abbrev pub then_on :
    (BoundedQueue Task → Option (BoundedQueue Task))
    → Option (BoundedQueue Task)
    → Option (BoundedQueue Task)
then_on rest none = none
then_on rest (some queue) = rest queue

-- the loop of `await self._worker_pool.queue.put(task)`
unfoldable pub dispatch : List Task → BoundedQueue Task → Option (BoundedQueue Task)
dispatch [] queue = some queue
dispatch (task ∷ tasks) queue = then_on (dispatch tasks) (put queue task)

abbrev pub ends_with : Db → Option (BoundedQueue Task) → Round
ends_with db none = waiting db
ends_with db (some queue) = dispatched db queue

-- _claim_cycle
unfoldable pub claim_cycle : Settings → ℕ → (ℕ → Bool) → Db → BoundedQueue Task → Round
unfolding dispatch
claim_cycle settings now locked db queue =
    let limit = batch_size settings queue in
    let (tasks, claimed) =
      claim_tasks limit (now + settings.task_lease_seconds) now locked db.tasks in
    if limit == 0 then idle else ends_with (record db { tasks = tasks }) (dispatch claimed queue)

abbrev has_max_attempts : Option ErrorPayload → Bool
has_max_attempts none = false
has_max_attempts (some p) = is_max_attempts p.code

-- _maybe_deactivate_domain: what the session sees after the flush
unfoldable pub maybe_deactivate_domain : ℕ → Task → Db → Db
unfolding deactivate_domain
maybe_deactivate_domain now task db =
    if has_max_attempts task.error_payload then deactivate_domain task.domain_id now db else db

abbrev pub Redispatch : Type 0
Redispatch = Db → BoundedQueue Task → Db × Option (BoundedQueue Task)

abbrev pub then_with :
    Redispatch → Db → Option (BoundedQueue Task) → Db × Option (BoundedQueue Task)
then_with rest seen none = (seen, none)
then_with rest seen (some queue) = rest seen queue

-- one recovered task: what the session sees, and the queue
abbrev pub redispatch_task : ℕ → Task → Bool → Redispatch → Redispatch
redispatch_task now task true rest seen queue = then_with rest seen (put queue task)
redispatch_task now task false rest seen queue = rest (maybe_deactivate_domain now task seen) queue

-- the loop over the recovered tasks
unfoldable pub redispatch : ℕ → List Task → Redispatch
redispatch now [] seen queue = (seen, some queue)
redispatch now (task ∷ tasks) seen queue =
    redispatch_task now task (is_pending task.status) (redispatch now tasks) seen queue

-- _recovery_cycle. The only commit is before the loop, and leaving the `async with` closes the
-- session: what the session saw after the commit is dropped.
unfoldable pub recovery_cycle :
    Settings → (ℕ → ℕ) → ℕ → ℕ → (ℕ → Bool) → Db → BoundedQueue Task → Round
unfolding redispatch
recovery_cycle settings jitter now later locked db queue =
    let limit = batch_size settings queue in
    let (tasks, recovered) =
      recover_expired_tasks settings.max_attempts jitter limit now later locked db.tasks in
    let committed = record db { tasks = tasks } in
    let (seen, after) = redispatch later recovered committed queue in
    if limit == 0 then idle else ends_with committed after
