-- ===== src/Shutdown.antt =====
-- src/domain_processing_service/shutdown.py, ShutdownCoordinator, with the start and stop of the
-- task manager (src/domain_processing_service/manager.py) that it calls.
pub mod Components
pub mod Sequence
use domain_process_e2e.Prelude.{
  ℕ, zero, suc, Bool, true, false, List, [], ◌∷◌, map, Option, none, some, if◌then◌else◌, is_some,
  ◌||◌,
}
use mathlib.Core.Option.{map as option_map}
use domain_process_e2e.Scheduler.{Scheduler}
use domain_process_e2e.Scheduler
use domain_process_e2e.Workers.{Worker, WorkerPool, stop_worker}

-- A task manager's `_running`, and whether its two loops go on.
pub record Manager : Type 0 where
  pub running : Bool
  pub looping : Bool
  pub recovering : Bool

unfoldable pub start_manager : Manager → Manager
start_manager m =
    if m.running then m else record { running = true; looping = true; recovering = true }

unfoldable pub stop_manager : Manager → Manager
stop_manager m =
    if m.running then record { running = false; looping = false; recovering = false } else m

pub record ShutdownState : Type 0 where
  pub initiated : Bool
  pub signal : Option ℕ
  pub api_closed : Bool
  pub task_manager_stopped : Bool
  pub scheduler_stopped : Bool
  pub worker_pool_draining : Bool
  pub worker_pool_stopped : Bool
  pub database_closed : Bool
  pub completed : Bool

pub record ShutdownCoordinator : Type 0 where
  pub task_manager : Option Manager
  pub scheduler : Option Scheduler
  pub worker_pool : Option WorkerPool
  pub state : ShutdownState

abbrev pub new_state : ShutdownState
new_state = record {
  initiated = false;
  signal = none;
  api_closed = false;
  task_manager_stopped = false;
  scheduler_stopped = false;
  worker_pool_draining = false;
  worker_pool_stopped = false;
  database_closed = false;
  completed = false;
}

unfoldable pub is_shutting_down : ShutdownCoordinator → Bool
is_shutting_down c = c.state.initiated

unfoldable pub is_shutdown_complete : ShutdownCoordinator → Bool
is_shutdown_complete c = c.state.completed

unfoldable pub on_signal : ℕ → ShutdownCoordinator → ShutdownCoordinator
on_signal sig c =
    if c.state.initiated
    then c
    else record c { state = record c.state { initiated = true; signal = some sig } }

-- How the grace period of `wait_for`, on the graceful stop of a running pool, ends: not before the
-- workers do, or while the stop waits for the worker at a place in the list.
pub data Drain : Type 0 where
  drained : Drain
  overrun : ℕ → Drain

-- At its end `wait_for` cancels the stop, which hands this on to the worker that it waits for.
-- Worker.stop catches the CancelledError, and the stop goes on with the others, and returns; so
-- `wait_for` raises no TimeoutError, and the clause for it is not reached.
unfoldable pub stop_workers : Drain → List Worker → List Worker
unfolding stop_worker
stop_workers drained workers = map (stop_worker true) workers
stop_workers (overrun n) [] = []
stop_workers (overrun zero) (w ∷ workers) = stop_worker false w ∷ map (stop_worker true) workers
stop_workers (overrun (suc n)) (w ∷ workers) = stop_worker true w ∷ stop_workers (overrun n) workers

-- A pool that is not running is not waited for.
unfoldable pub drain_pool : Drain → WorkerPool → WorkerPool
unfolding stop_workers
drain_pool drain pool =
    if pool.running
    then record pool { workers = stop_workers drain pool.workers; running = false }
    else pool

-- up to the stop of the scheduler
unfoldable pub close_api : ShutdownCoordinator → ShutdownCoordinator
unfolding stop_manager Scheduler.stop
close_api c = record c {
  task_manager = option_map stop_manager c.task_manager;
  scheduler = option_map Scheduler.stop c.scheduler;
  state = record c.state {
    initiated = true;
    api_closed = true;
    task_manager_stopped = is_some c.task_manager || c.state.task_manager_stopped;
    scheduler_stopped = is_some c.scheduler || c.state.scheduler_stopped;
  };
}

-- from the close of the database on
unfoldable pub complete_shutdown : Bool → ShutdownCoordinator → ShutdownCoordinator
complete_shutdown database c = record c {
  state = record c.state {
    database_closed = database || c.state.database_closed;
    completed = true;
  };
}

abbrev pub after_drain : Bool → ShutdownCoordinator → Option WorkerPool → ShutdownCoordinator
after_drain database c none = complete_shutdown database c
after_drain database c (some pool) = complete_shutdown database (record c {
  worker_pool = some pool;
  state = record c.state { worker_pool_draining = true; worker_pool_stopped = true };
})

-- shutdown, when the handlers of the workers return. `database` says whether one is given.
unfoldable pub shutdown : Drain → Bool → ShutdownCoordinator → ShutdownCoordinator
unfolding drain_pool close_api complete_shutdown
shutdown drain database c =
    after_drain database (close_api c) (option_map (drain_pool drain) c.worker_pool)

-- The service is shutting down: what create_job asks of `app.state.shutdown_coordinator`.
unfoldable pub coordinator_shutting_down : Option ShutdownCoordinator → Bool
unfolding is_shutting_down
coordinator_shutting_down none = false
coordinator_shutting_down (some c) = is_shutting_down c
