-- ===== src/App/Lifespan.antt =====
-- What runs between the start and the end of the lifespan, and after it.
use domain_process_e2e.Prelude.{ℕ, false, Option, length, ◌≡◌}
use mathlib.Core.Option.{map as option_map}
use domain_process_e2e.Text.{Text}
use domain_process_e2e.Scheduler.{Scheduler}
use domain_process_e2e.Scheduler
use domain_process_e2e.Queue
use domain_process_e2e.Workers.{WorkerPool}
use domain_process_e2e.Shutdown.{Manager, ShutdownCoordinator, is_shutting_down}
use domain_process_e2e.Shutdown.Components.{All, IsIdle, IfThere}
use domain_process_e2e.Shutdown.Sequence.{Running}
use domain_process_e2e.App.{App}

abbrev PoolIdle : ℕ → WorkerPool → Type 0
PoolIdle n p = (p.running ≡ false) × (length p.workers ≡ n) × All IsIdle p.workers

-- Nothing has been started or stopped.
abbrev IsNew : ℕ → ShutdownCoordinator → Type 0
IsNew n c =
    IfThere (λ (m : Manager). m.running ≡ false) c.task_manager
    × IfThere (λ (s : Scheduler). s.running ≡ false) c.scheduler
    × IfThere (PoolIdle n) c.worker_pool
    × (is_shutting_down c ≡ false)

-- The task manager, the scheduler and the worker pool run, as far as there are any, and the API is
-- open.
abbrev pub Runs : ℕ → ShutdownCoordinator → Type 0
Runs n c = Running n c × (is_shutting_down c ≡ false)
