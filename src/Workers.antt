-- ===== src/Workers.antt =====
-- src/domain_processing_service/worker/worker.py, Worker and WorkerPool: the flags that start and
-- stop change, and the rounds of the loop that takes tasks from the queue.
pub mod Drain
pub mod Phase9
use domain_process_e2e.Prelude.{
  ℕ, zero, suc, Bool, true, false, List, [], ◌∷◌, map, if◌then◌else◌, Option, none, some,
}
use domain_process_e2e.Text.{Text}
use domain_process_e2e.Model.{Task, Db}
use domain_process_e2e.Queue.{BoundedQueue, get, task_done}
use domain_process_e2e.Queue

-- A worker's `_task`: none, its loop, the loop when it has come to its end or been cancelled.
pub data Loop : Type 0 where
  no_loop looping ended cancelled : Loop

pub record Worker : Type 0 where
  pub worker_id : Text
  pub running : Bool
  pub loop : Loop

pub record WorkerPool : Type 0 where
  pub workers : List Worker
  pub queue : BoundedQueue Task
  pub running : Bool

abbrev pub new_worker : Text → Worker
new_worker worker_id = record { worker_id = worker_id; running = false; loop = no_loop }

unfoldable pub start_worker : Worker → Worker
start_worker w = if w.running then w else record w { running = true; loop = looping }

abbrev pub stopped_loop : Bool → Loop → Loop
stopped_loop graceful no_loop = no_loop
stopped_loop true looping = ended
stopped_loop false looping = cancelled
stopped_loop graceful ended = ended
stopped_loop graceful cancelled = cancelled

-- Worker.stop, which returns when the loop has come to its end
unfoldable pub stop_worker : Bool → Worker → Worker
stop_worker graceful w =
    if w.running then record w { running = false; loop = stopped_loop graceful w.loop } else w

abbrev pub take_ids : ℕ → (ℕ → Text) → List Worker
take_ids zero ids = []
take_ids (suc n) ids = new_worker (ids 0) ∷ take_ids n (λ i. ids (suc i))

abbrev with_queue : ℕ → (ℕ → Text) → Option (BoundedQueue Task) → Option WorkerPool
with_queue worker_concurrency ids none = none
with_queue worker_concurrency ids (some queue) =
    some (record { workers = take_ids worker_concurrency ids; queue = queue; running = false })

-- WorkerPool(); `none` is the ValueError of the queue.
unfoldable pub new_pool : ℕ → ℕ → (ℕ → Text) → Option WorkerPool
new_pool worker_queue_capacity worker_concurrency ids =
    with_queue worker_concurrency ids (Queue.new worker_queue_capacity)

unfoldable pub start_pool : WorkerPool → WorkerPool
unfolding start_worker
start_pool pool =
    if pool.running
    then pool
    else record pool { workers = map start_worker pool.workers; running = true }

unfoldable pub stop_pool : Bool → WorkerPool → WorkerPool
unfolding stop_worker
stop_pool graceful pool =
    if pool.running
    then record pool { workers = map (stop_worker graceful) pool.workers; running = false }
    else pool

-- A task handler: what it leaves of the database, and whether it, or its commit, raises.
abbrev pub Handler : Type 0
Handler = Task → Db → Db × Bool

-- _process_task. `attached` says that the handler makes its own sessions.
unfoldable pub process_task : Bool → Handler → Task → Db → Db
process_task attached handler task db =
    let (db', raised) = handler task db in if attached then db' else if raised then db else db'

abbrev pub or_same : BoundedQueue Task → Option (BoundedQueue Task) → BoundedQueue Task
or_same q none = q
or_same q (some q') = q'

abbrev pub after_get :
    Bool
    → Handler
    → BoundedQueue Task × Db
    → Option (Task × BoundedQueue Task)
    → BoundedQueue Task × Db
after_get attached handler (q, db) none = (q, db)
after_get attached handler (q, db) (some (task, q')) =
    (or_same q' (task_done q'), process_task attached handler task db)

-- One round of _run_loop: a get that times out, or a task. What is raised is logged.
unfoldable pub round : Bool → Handler → BoundedQueue Task × Db → BoundedQueue Task × Db
unfolding process_task
round attached handler (q, db) = after_get attached handler (q, db) (get q)

unfoldable pub rounds : Bool → Handler → ℕ → BoundedQueue Task × Db → BoundedQueue Task × Db
unfolding round
rounds attached handler zero s = s
rounds attached handler (suc n) s = rounds attached handler n (round attached handler s)
