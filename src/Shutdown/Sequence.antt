-- ===== src/Shutdown/Sequence.antt =====
-- What a shutdown leaves, and that it is for good.
use domain_process_e2e.Prelude.{
  ℕ, Bool, true, map, Option, none, some, ◌≡◌, refl, inl, inr, Bool-cases,
}
use mathlib.Core.Option.{map as option_map}
use domain_process_e2e.Model.{Db}
use domain_process_e2e.Scheduler
use domain_process_e2e.Workers.{WorkerPool}
use domain_process_e2e.Shutdown.{
  stop_manager, ShutdownCoordinator, is_shutting_down, coordinator_shutting_down, on_signal, Drain,
  drain_pool, close_api, complete_shutdown, after_drain, shutdown,
}
use domain_process_e2e.Shutdown.Components.{
  PoolRuns, PoolStopped, ManagerRuns, ManagerStopped, SchedulerRuns, SchedulerStopped, IfThere,
  IfThere-map, stop_manager-ManagerStopped, stop-SchedulerStopped, drain_pool-PoolStopped,
}
use domain_process_e2e.Routes.Create.{Request, Ids, Service, http_error}
use domain_process_e2e.Routes.CreateJob.{Stage, create_job}

-- The task manager, the scheduler and the worker pool run, with `n` workers, as far as there are
-- any;
abbrev pub Running : ℕ → ShutdownCoordinator → Type 0
Running n c =
    IfThere ManagerRuns c.task_manager
    × IfThere SchedulerRuns c.scheduler
    × IfThere (PoolRuns n) c.worker_pool

-- or no flag of one is set, and no loop of one goes on.
abbrev pub Stopped : ShutdownCoordinator → Type 0
Stopped c =
    IfThere ManagerStopped c.task_manager
    × IfThere SchedulerStopped c.scheduler
    × IfThere PoolStopped c.worker_pool

after_drain-Stopped :
    (database : Bool) (c : ShutdownCoordinator) (o : Option WorkerPool)
    → IfThere ManagerStopped c.task_manager
    → IfThere SchedulerStopped c.scheduler
    → IfThere PoolStopped c.worker_pool
    → IfThere PoolStopped o
    → Stopped (after_drain database c o)
unfolding complete_shutdown
after_drain-Stopped database c none m s old p = (m, s, old)
after_drain-Stopped database c (some pool) m s old p = (m, s, p)

drained-Stopped :
    (drain : Drain) (database : Bool) (n : ℕ) (c : ShutdownCoordinator) (o : Option WorkerPool)
    → c.worker_pool ≡ o
    → IfThere ManagerStopped c.task_manager
    → IfThere SchedulerStopped c.scheduler
    → IfThere (PoolRuns n) o
    → Stopped (after_drain database c (option_map (drain_pool drain) o))
unfolding complete_shutdown
drained-Stopped drain database n c none e m s p = (m, s, rw e refl)
drained-Stopped drain database n c (some pool) e m s p =
    (m, s, drain_pool-PoolStopped drain n pool p)

-- A shutdown of what runs stops all of it, however the drain of the pool ends.
pub shutdown-Stopped :
    (drain : Drain) (database : Bool) (n : ℕ) (c : ShutdownCoordinator)
    → Running n c
    → Stopped (shutdown drain database c)
unfolding shutdown close_api
shutdown-Stopped drain database n c (manager, scheduler, pool) =
    drained-Stopped drain database n (close_api c) c.worker_pool refl
      (IfThere-map ManagerRuns ManagerStopped stop_manager c.task_manager
        stop_manager-ManagerStopped manager)
      (IfThere-map SchedulerRuns SchedulerStopped Scheduler.stop c.scheduler stop-SchedulerStopped
        scheduler)
      pool

-- What can happen to the coordinator once the service runs.
pub data Event : ShutdownCoordinator → ShutdownCoordinator → Type 0 where
  signals : {c : ShutdownCoordinator} (sig : ℕ) → Event c (on_signal sig c)
  shuts_down :
      {c : ShutdownCoordinator} (drain : Drain) (database : Bool)
      → Event c (shutdown drain database c)

pub data Events : ShutdownCoordinator → ShutdownCoordinator → Type 0 where
  start : {c : ShutdownCoordinator} → Events c c
  next : {c c1 c2 : ShutdownCoordinator} → Events c c1 → Event c1 c2 → Events c c2

pub initiated_by : {c c' : ShutdownCoordinator} → Event c c' → is_shutting_down c' ≡ true
unfolding is_shutting_down on_signal shutdown complete_shutdown close_api
initiated_by (Event.signals {c} sig) = elim (Bool-cases c.state.initiated) [
  | inl e ↦ simp e refl
  | inr e ↦ simp e refl
]
initiated_by (Event.shuts_down {c} drain database) =
    go (option_map (drain_pool drain) c.worker_pool)
  where
    go : (o : Option WorkerPool) → (after_drain database (close_api c) o).state.initiated ≡ true
    go none = refl
    go (some pool) = refl

events_stay :
    {c c' : ShutdownCoordinator}
    → Events c c'
    → is_shutting_down c ≡ true
    → is_shutting_down c' ≡ true
events_stay Events.start h = h
events_stay (Events.next run event) h = initiated_by event

-- From the first signal or shutdown on, whatever signals and shutdowns follow, create_job answers
-- 503 and changes nothing.
pub create_job_closed :
    (service : Service) (ids : Ids) (now : ℕ) (fault : Option Stage) (request : Request) (db : Db)
    (c c1 c2 : ShutdownCoordinator)
    → Event c c1
    → Events c1 c2
    → create_job service ids now (coordinator_shutting_down (some c2)) fault request db
      ≡ (http_error 503, db)
unfolding create_job coordinator_shutting_down
create_job_closed service ids now fault request db c c1 c2 first run =
    rw (events_stay run (initiated_by first)) refl
