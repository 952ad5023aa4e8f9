-- ===== src/App.antt =====
-- src/domain_processing_service/app.py: what create_app makes, and the start and the end of its
-- lifespan; /health/ready.
pub mod Lifespan
use domain_process_e2e.Prelude.{ℕ, Bool, true, false, if◌then◌else◌, Option, none, some}
use mathlib.Core.Option.{map as option_map}
use domain_process_e2e.Text.{Text}
use domain_process_e2e.Scheduler.{Scheduler}
use domain_process_e2e.Scheduler
use domain_process_e2e.Workers.{WorkerPool, new_pool, start_pool}
use domain_process_e2e.Shutdown.{
  Manager, start_manager, ShutdownCoordinator, new_state, Drain, shutdown,
}
use domain_process_e2e.Lock.{Client, disconnected, connect, close}

-- The coordinator, with the components that it refers to, and the client of the lock manager.
pub record App : Type 0 where
  pub coordinator : ShutdownCoordinator
  pub lock_client : Client

abbrev with_pool : Bool → WorkerPool → App
with_pool enable_scheduler pool = record {
  coordinator = record {
    task_manager = some (record { running = false; looping = false; recovering = false });
    scheduler =
        if enable_scheduler then some (record { running = false; looping = false }) else none;
    worker_pool = some pool;
    state = new_state;
  };
  lock_client = disconnected;
}

abbrev without_pool : App
without_pool = record {
  coordinator = record {
    task_manager = none;
    scheduler = none;
    worker_pool = none;
    state = new_state;
  };
  lock_client = disconnected;
}

-- create_app; `none` is the ValueError of the queue. `ids` are those of the workers.
unfoldable pub create_app : ℕ → ℕ → (ℕ → Text) → Bool → Bool → Option App
create_app worker_queue_capacity worker_concurrency ids enable_worker_pool enable_scheduler =
    if enable_worker_pool
    then option_map (with_pool enable_scheduler)
        (new_pool worker_queue_capacity worker_concurrency ids)
    else some without_pool

-- lifespan up to the yield. `none` is an exception of the database's connect; `ping` says that
-- Redis answers, and if it does not, this is logged.
unfoldable pub startup : Bool → Bool → App → Option App
unfolding start_pool start_manager Scheduler.start connect
startup database ping app =
    if database
    then some (record {
      coordinator = record app.coordinator {
        worker_pool = option_map start_pool app.coordinator.worker_pool;
        task_manager = option_map start_manager app.coordinator.task_manager;
        scheduler = option_map Scheduler.start app.coordinator.scheduler;
      };
      lock_client = (connect ping app.lock_client).0;
    })
    else none

-- lifespan after the yield
unfoldable pub end_lifespan : Drain → App → App
unfolding close
end_lifespan drain app = record {
  coordinator = shutdown drain true app.coordinator;
  lock_client = close app.lock_client;
}

-- the status of /health/ready
unfoldable pub health_ready : Bool → ℕ
health_ready ready = if ready then 200 else 503
